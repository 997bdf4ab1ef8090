-- ===== src/Append.antt =====
-- src/append_writer.cc: the writer of one file. It keeps the last bytes, fewer than one block, in
-- memory and writes whole blocks. The file is seastar's, a parameter; a call gives back whether it
-- returned (`false` is an exception) with the state that it left.
pub mod Device
pub mod Chunks
pub mod Write
pub mod Retry
pub mod Stream
pub mod Disk
mod Tests
use seastar_log_engine.Prelude.{
  ℕ, zero, suc, ◌+◌, ◌-◌, ◌%◌, min, max, Bool, true, false, not, ◌&&◌, Option, none, some, List, [],
  ◌∷◌, ◌++◌, Bytes, length, take, drop, ltb, leb, ◌==◌, if◌then◌else◌, replicate, ◌*◌, ◌/◌,
}
use seastar_log_engine.Config.{EngineConfig}

-- `seastar::file` in the state `D`. A write tells how many bytes it wrote, opening tells the
-- alignment of the device; `none` and `false` are exceptions.
pub record FileOps (D : Type 0) : Type 0 where
  pub open_file_dma : Bool → D → Option ℕ × D
  pub dma_write : ℕ → Bytes → D → Option ℕ × D
  pub flush : D → Bool × D
  pub truncate : ℕ → D → Bool × D
  pub close : D → Bool × D

pub record AppendWriter (D : Type 0) : Type 0 where
  pub config : EngineConfig
  pub file : D
  pub file_open : Bool
  pub tail_chunks : List Bytes
  pub tail_bytes : ℕ
  pub write_offset : ℕ
  pub logical_size : ℕ
  pub alignment : ℕ
  pub opened_at : ℕ

unfoldable pub align_up : ℕ → ℕ → ℕ
align_up value alignment =
    if alignment == 0
    then value
    else if value % alignment == 0
    then value
    else value + alignment - value % alignment

-- The bytes that the visitor of `for_each_chunk_prefix` is shown, and how many are still wanted.
unfoldable pub visit_prefix : List Bytes → ℕ → Bytes × ℕ
visit_prefix [] bytes = ([], bytes)
visit_prefix (chunk ∷ chunks) bytes =
    let span = min bytes (length chunk) in
    let (copied, left) = visit_prefix chunks (bytes - span) in
    if bytes == 0 then ([], bytes) else (take span chunk ++ copied, left)

unfoldable pub for_each_chunk_prefix : List Bytes → List Bytes → ℕ → Bytes
for_each_chunk_prefix first second bytes =
    let (copied, left) = visit_prefix first bytes in copied ++ (visit_prefix second left).0

-- One call of `consume`: the chunks that remain, and how many bytes are still to be dropped.
unfoldable pub consume : List Bytes → ℕ → List Bytes × ℕ
consume [] consumed = ([], consumed)
consume (chunk ∷ chunks) consumed =
    let all = leb (length chunk) consumed in
    let (remaining, left) = consume chunks (if all then consumed - length chunk else 0) in
    if all then (remaining, left) else (drop consumed chunk ∷ remaining, left)

unfoldable pub collect_remaining_chunks : List Bytes → List Bytes → ℕ → List Bytes
collect_remaining_chunks first second consumed =
    let (remaining, left) = consume first consumed in remaining ++ (consume second left).0

unfoldable pub batch_bytes : List Bytes → ℕ
batch_bytes [] = 0
batch_bytes (entry ∷ batch) = length entry + batch_bytes batch

-- The loop that lists the chunks of `write_aligned_buffer`, on fuel.
unfoldable pub chunk_offsets : ℕ → ℕ → ℕ → ℕ → List ℕ
chunk_offsets zero chunk_limit expected offset = []
chunk_offsets (suc fuel) chunk_limit expected offset =
    let rest = chunk_offsets fuel chunk_limit expected (offset + chunk_limit) in
    if ltb offset expected then offset ∷ rest else []

-- A short write is an exception too.
unfoldable pub is_whole : Option ℕ → ℕ → Bool
is_whole none chunk_size = false
is_whole (some written) chunk_size = written == chunk_size

module _ {D : Type 0} (ops : FileOps D) where
  -- The chunks are written in the order of their offsets, up to the first one that fails.
  unfoldable pub write_chunks : ℕ → ℕ → ℕ → Bytes → List ℕ → D → Bool × D
  write_chunks base_offset chunk_limit expected buffer [] file = (true, file)
  write_chunks base_offset chunk_limit expected buffer (offset ∷ offsets) file =
      let chunk_size = min chunk_limit (expected - offset) in
      let (written, file') =
        ops.dma_write (base_offset + offset) (take chunk_size (drop offset buffer)) file in
      if is_whole written chunk_size
      then write_chunks base_offset chunk_limit expected buffer offsets file'
      else (false, file')

  -- The body of the loop over the attempts.
  unfoldable pub write_attempt : ℕ → ℕ → ℕ → Bytes → Bool → D → Bool × D
  write_attempt base_offset chunk_limit expected buffer sync_after_write file =
      let offsets = chunk_offsets expected chunk_limit expected 0 in
      let (written, file') = write_chunks base_offset chunk_limit expected buffer offsets file in
      if written && sync_after_write then ops.flush file' else (written, file')

-- `for (attempt = 0; attempt < write_retry_count; ++attempt)`; after the last one the exception is
-- thrown on. The wait between two attempts has no effect on the state.
unfoldable pub retry : {D : Type 0} → (D → Bool × D) → ℕ → D → Bool × D
retry attempt zero file = (false, file)
retry attempt (suc attempts) file =
    let (success, file') = attempt file in
    elim success [ true ↦ (true, file') | false ↦ retry attempt attempts file' ]

-- The largest piece of one write.
unfoldable pub chunk_limit_of : {D : Type 0} → AppendWriter D → ℕ
chunk_limit_of w = max (align_up w.config.stream_buffer_size w.alignment) w.alignment

module _ {D : Type 0} (ops : FileOps D) where
  unfoldable pub write_aligned_buffer : Bytes → ℕ → Bool → AppendWriter D → Bool × AppendWriter D
  write_aligned_buffer buffer expected sync_after_write w =
      let (returned, file') =
        retry (write_attempt ops w.write_offset (chunk_limit_of w) expected buffer sync_after_write)
          w.config.write_retry_count w.file in
      (returned, record w { file = file' })

  pub flush_chunk : Bytes → Bool → AppendWriter D → Bool × Bytes × AppendWriter D
  flush_chunk buffer flush_now w =
      let padded = align_up (length buffer) w.alignment in
      let zeroed = buffer ++ replicate (padded - length buffer) 0 in
      let (returned, w') = write_aligned_buffer zeroed padded flush_now w in
      if length buffer == 0
      then (true, buffer, w)
      else if returned
      then (true, [], record w' { write_offset = w'.write_offset + padded })
      else (false, buffer, w')

  -- `while (available > 0)` on fuel; `buffer` holds the `chunk_bytes` that are filled.
  pub fill_chunk : ℕ → Bytes → Bytes → AppendWriter D → Bool × Bytes × AppendWriter D
  fill_chunk zero input buffer w = (true, buffer, w)
  fill_chunk (suc fuel) input buffer w =
      let chunk_limit = chunk_limit_of w in
      let (returned, buffer', w') =
        if length buffer == chunk_limit then flush_chunk buffer false w else (true, buffer, w) in
      let copy_bytes = min (chunk_limit - length buffer') (length input) in
      let rest = fill_chunk fuel (drop copy_bytes input) (buffer' ++ take copy_bytes input) w' in
      if length input == 0
      then (true, buffer, w)
      else if returned
      then rest
      else (false, buffer', w')

  pub fill_chunks : List Bytes → ℕ → Bytes → AppendWriter D → Bool × Bytes × AppendWriter D × ℕ
  fill_chunks [] remaining buffer w = (true, buffer, w, remaining)
  fill_chunks (chunk ∷ chunks) remaining buffer w =
      let available = min remaining (length chunk) in
      let (returned, buffer', w') = fill_chunk available (take available chunk) buffer w in
      let rest = fill_chunks chunks (remaining - available) buffer' w' in
      if remaining == 0
      then (true, buffer, w, remaining)
      else if returned
      then rest
      else (false, buffer', w', remaining - available)

  pub write_chunked_buffer_prefix :
      List Bytes → List Bytes → ℕ → Bool → AppendWriter D → Bool × AppendWriter D
  write_chunked_buffer_prefix first second bytes sync_after_write w =
      let (returned, buffer, w', remaining) = fill_chunks first bytes [] w in
      let (returned', buffer', after, left) = fill_chunks second remaining buffer w' in
      let (flushed, rest, last) = flush_chunk buffer' sync_after_write after in
      if returned then if returned' then (flushed, last) else (false, after) else (false, w')

  unfoldable pub flush_chunks_prefix :
      List Bytes → List Bytes → ℕ → Bool → Bool → AppendWriter D → Bool × AppendWriter D
  flush_chunks_prefix first second bytes chunked sync_after_write w =
      let writable_bytes = align_up bytes w.alignment in
      let buffer =
        for_each_chunk_prefix first second bytes ++ replicate (writable_bytes - bytes) 0 in
      let (returned, w') = write_aligned_buffer buffer writable_bytes sync_after_write w in
      if writable_bytes == 0
      then (true, w)
      else if chunked
      then write_chunked_buffer_prefix first second bytes sync_after_write w
      else if returned
      then (true, record w' { write_offset = w'.write_offset + writable_bytes })
      else (false, w')

  -- The batch that the caller is left with comes second.
  unfoldable pub append_pending_batch :
      List Bytes → ℕ → Bool → AppendWriter D → Bool × List Bytes × AppendWriter D
  append_pending_batch batch bytes sync_after_write w =
      let total_bytes = w.tail_bytes + bytes in
      let writable_bytes = total_bytes / w.alignment * w.alignment in
      let (returned, w') =
        flush_chunks_prefix w.tail_chunks batch writable_bytes false sync_after_write w in
      if ltb 0 writable_bytes
      then if returned
        then (
          true,
          [],
          record w' {
            tail_chunks = collect_remaining_chunks w'.tail_chunks batch writable_bytes;
            tail_bytes = total_bytes - writable_bytes;
          },
        )
        else (false, batch, w')
      else (true, [], record w { tail_chunks = w.tail_chunks ++ batch; tail_bytes = total_bytes })

  unfoldable pub append_batch :
      List Bytes → Bool → AppendWriter D → Bool × List Bytes × AppendWriter D
  append_batch batch sync_after_write w =
      let bytes = batch_bytes batch in
      let grown = record w { logical_size = w.logical_size + bytes } in
      let (returned, left, w') = append_pending_batch batch bytes sync_after_write grown in
      if returned
      then (true, left, w')
      else (false, left, record w' { logical_size = w'.logical_size - bytes })

  unfoldable pub force_flush : Bool → AppendWriter D → Bool × AppendWriter D
  force_flush sync_after_write w =
      let writable_bytes = align_up w.tail_bytes w.alignment in
      let buffer =
        for_each_chunk_prefix w.tail_chunks [] w.tail_bytes
        ++ replicate (writable_bytes - w.tail_bytes) 0 in
      let (flushed, file') = ops.flush w.file in
      if not w.file_open
      then (true, w)
      else if ltb 0 w.tail_bytes
      then write_aligned_buffer buffer writable_bytes sync_after_write w
      else if sync_after_write
      then (flushed, record w { file = file' })
      else (true, w)

  -- The end of a file that is closed: its size, then a flush.
  unfoldable pub cut_file : AppendWriter D → Bool × AppendWriter D
  cut_file w =
      let (returned, file') = ops.truncate w.logical_size w.file in
      let (flushed, after) = ops.flush file' in
      if returned then (flushed, record w { file = after }) else (false, record w { file = file' })

  unfoldable pub flush_tail : Bool → AppendWriter D → Bool × AppendWriter D
  flush_tail closing w =
      let writable_bytes =
        if closing
        then align_up w.tail_bytes w.alignment
        else w.tail_bytes / w.alignment * w.alignment in
      let pieces = max (align_up w.config.stream_buffer_size w.alignment * 2) w.alignment in
      let (returned, w') =
        flush_chunks_prefix w.tail_chunks [] w.tail_bytes (closing && leb pieces writable_bytes)
          closing w in
      let cleared = record w' { tail_chunks = []; tail_bytes = 0 } in
      if not w.file_open
      then (true, w)
      else if writable_bytes == 0
      then if closing then cut_file w else (true, w)
      else if returned
      then if closing then cut_file cleared else (true, cleared)
      else (false, w')

  unfoldable pub truncate_to : ℕ → Bytes → AppendWriter D → Bool × AppendWriter D
  truncate_to logical_size tail_buffer w =
      let (returned, file') = ops.truncate logical_size w.file in
      let w' = record w {
        logical_size = logical_size;
        tail_chunks = if length tail_buffer == 0 then [] else tail_buffer ∷ [];
        tail_bytes = length tail_buffer;
        write_offset = logical_size - length tail_buffer;
      } in
      if w.file_open then (returned, record w' { file = file' }) else (true, w')

  unfoldable pub close : AppendWriter D → Bool × AppendWriter D
  close w =
      let (flushed, w') = flush_tail true w in
      let (closed, file') = ops.close w'.file in
      if w.file_open
      then if flushed
        then if closed
          then (true, record w' { file = file'; file_open = false })
          else (false, record w' { file = file' })
        else (false, w')
      else (true, w)

  -- `now` is the clock of the system.
  unfoldable pub open_file : ℕ → AppendWriter D → Bool × AppendWriter D
  open_file now w =
      let (opened, file') = ops.open_file_dma w.config.truncate_on_start w.file in
      if w.file_open then (true, w) else elim opened [
        | none ↦ (false, record w { file = file' })
        | some alignment ↦ (
          true,
          record w { file = file'; file_open = true; alignment = max alignment 1; opened_at = now },
        )
      ]

  unfoldable pub start : EngineConfig → ℕ → AppendWriter D → Bool × AppendWriter D
  start config now w = open_file now (record w {
    config = config;
    tail_chunks = [];
    tail_bytes = 0;
    write_offset = 0;
    logical_size = 0;
    alignment = 4096;
    opened_at = now;
  })

unfoldable pub reset_after_rotation : {D : Type 0} → AppendWriter D → AppendWriter D
reset_after_rotation w = record w {
  write_offset = 0;
  logical_size = 0;
  tail_chunks = [];
  tail_bytes = 0;
}
