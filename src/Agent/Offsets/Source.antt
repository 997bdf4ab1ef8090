-- ===== src/Agent/Offsets/Source.antt =====
-- The offset of a source in src/agent_support.cc is read back as it was stored.
use seastar_log_engine.Prelude.{
  ◌<◌, ◌≡◌, refl, ap, ◌∙◌, Option, some, [], ◌∷◌, ◌++◌, arith, Bytes, codes, to_decimal,
  u64_modulus,
}
use seastar_log_engine.Codec.Json.{StringMap, map_assign}
use seastar_log_engine.Codec.Record.Find.{Lacks}
use seastar_log_engine.Agent.{SourceOffset}
use seastar_log_engine.Agent.Lines.{
  text_lines, text_lines-line, text_lines-nil, collect_pairs, collect_pairs-pair, parse_kv_text,
  map_find, parse_u64-to_decimal, to_decimal-Lacks_newline, key-Lacks_newline,
}
use seastar_log_engine.Agent.Offsets.{
  render_source_offset, source_offset_of, present_source_offset, load_source_offset,
}

present : StringMap → Option (Option SourceOffset)
present values =
    present_source_offset (map_find (codes "path") values) (map_find (codes "inode") values)
      (map_find (codes "offset") values)

-- The offset of a source that was stored is read back, when the path of the source has no line end and
-- the numbers fit 64 bits.
pub load_source_offset-render :
    (offset : SourceOffset)
    → Lacks b'\n' offset.path
    → offset.inode < u64_modulus
    → offset.offset < u64_modulus
    → load_source_offset (render_source_offset offset) ≡ some (some offset)
unfolding present load_source_offset render_source_offset present_source_offset source_offset_of
    parse_kv_text collect_pairs map_find map_assign
load_source_offset-render offset path_ok inode_ok offset_ok =
    let path_line = codes "path=" ++ offset.path in
    let inode_line = codes "inode=" ++ to_decimal offset.inode in
    let offset_line = codes "offset=" ++ to_decimal offset.offset in
    let last : Bytes = offset_line ++ b'\n' ∷ [] in
    let behind : Bytes = inode_line ++ b'\n' ∷ last in
    let lines : text_lines (render_source_offset offset)
        ≡ path_line ∷ inode_line ∷ offset_line ∷ [] =
      text_lines-line path_line behind
        (key-Lacks_newline (codes "path=") offset.path (omega arith) path_ok)
      ∙ ap (λ l. path_line ∷ l)
          (text_lines-line inode_line last (
              key-Lacks_newline (codes "inode=") (to_decimal offset.inode) (omega arith)
                (to_decimal-Lacks_newline offset.inode))
            ∙ ap (λ l. inode_line ∷ l)
                (text_lines-line offset_line [] (
                    key-Lacks_newline (codes "offset=") (to_decimal offset.offset) (omega arith)
                      (to_decimal-Lacks_newline offset.offset))
                  ∙ ap (λ l. offset_line ∷ l) text_lines-nil)) in
    let inode = to_decimal offset.inode in
    let position = to_decimal offset.offset in
    let one = map_assign (codes "path") offset.path [] in
    let two = map_assign (codes "inode") inode one in
    let three = map_assign (codes "offset") position two in
    let pairs : parse_kv_text (render_source_offset offset) ≡ three =
      ap (λ l. collect_pairs l []) lines
      ∙ collect_pairs-pair (codes "path") offset.path (inode_line ∷ offset_line ∷ []) []
          (omega arith)
      ∙ collect_pairs-pair (codes "inode") inode (offset_line ∷ []) one (omega arith)
      ∙ collect_pairs-pair (codes "offset") position [] two (omega arith) in
    ap present pairs
    ∙ rw (parse_u64-to_decimal offset.inode inode_ok, parse_u64-to_decimal offset.offset offset_ok)
        refl
