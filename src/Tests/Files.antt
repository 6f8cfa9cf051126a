-- ===== src/Tests/Files.antt =====
-- The inodes, the pending writes and the texts of crates/alefs-fuse on concrete inputs.
use alefsdb.Prelude.{◌≡◌, refl, List, none, some, [], ◌∷◌, arith, ◌++◌}
use alefsdb.Prelude.Order.{negsuc, nat_ord, cmp_list}
use alefsdb.Prelude.OrdMap.{get, insert}
use alefsdb.Bytes.{Bytes, text}
use alefsdb.Types.Value.{int}
use alefsdb.Fuse.Inodes.{new_inodes, inos_for_paths, ino_for_path, known_or_added, add_ino}
use alefsdb.Fuse.Buffers.{
  write, write_at, grow, byte_at, written, zeros, byte_at-write_at, write_first-zeros,
}
use alefsdb.Fuse.Text.{parse_scalar_text, scalar_bytes, parse_scalar_text-scalar_bytes}

abbrev two_paths : List Bytes
two_paths = text "/a" ∷ text "/b" ∷ text "/a" ∷ []

same_number : (inos_for_paths (new_inodes 1) two_paths).1 ≡ 2 ∷ 3 ∷ 2 ∷ []
unfolding inos_for_paths ino_for_path known_or_added add_ino get insert text cmp_list
same_number = refl

hole_written : write_at (7 ∷ []) 3 (8 ∷ 9 ∷ []) ≡ 7 ∷ 0 ∷ 0 ∷ 8 ∷ 9 ∷ []
unfolding write_at grow
hole_written = refl

byte_at-write_at_example :
    byte_at 3 (write_at (7 ∷ []) 3 (8 ∷ 9 ∷ [])) ≡ written 3 (7 ∷ []) 3 (8 ∷ 9 ∷ [])
byte_at-write_at_example = byte_at-write_at 3 (7 ∷ []) 3 (8 ∷ 9 ∷ [])

write_first-zeros_example :
    get 5 (write ((4, 1 ∷ []) ∷ []) 5 2 (8 ∷ [])).0 ≡ some (zeros 2 ++ (8 ∷ []))
unfolding get
write_first-zeros_example = write_first-zeros ((4, 1 ∷ []) ∷ []) 5 2 (8 ∷ []) refl

parse_scalar_text-scalar_bytes_example :
    parse_scalar_text
      (λ d. none)
      (λ d. d)
      (int (negsuc 41))
      (scalar_bytes (λ f. []) (int (negsuc 41)))
    ≡ some (int (negsuc 41))
parse_scalar_text-scalar_bytes_example =
    parse_scalar_text-scalar_bytes (λ d. none) (λ f. []) (λ d. d) (λ d v. refl) (int (negsuc 41))
      (omega arith)
