-- ===== src/Fuse/Inodes.antt =====
-- The table of inodes of `AlefsFs`: `new`, `path_for_ino` and `ino_for_path`
-- (crates/alefs-fuse/src/lib.rs). A `HashMap` is the list of its entries by their keys.
use alefsdb.Prelude.{ℕ, ◌+◌, ◌%◌, ◌^◌, ◌<◌, ◌≡◌, Option, none, some, List, [], ◌∷◌, length, arith}
use alefsdb.Prelude.Order.{nat_ord, list_ord}
use alefsdb.Prelude.OrdMap.{OrdMap, get, insert, get-insert}
use alefsdb.Bytes.{Bytes, text, bytes_ord}

pub record Inodes : Type 0 where
  pub ino_to_path : OrdMap ℕ Bytes
  pub path_to_ino : OrdMap Bytes ℕ
  pub next_ino : ℕ

-- The number of the root, `FUSE_ROOT_ID` of the FUSE library, is a parameter.
abbrev pub new_inodes : ℕ → Inodes
new_inodes fuse_root_id = record {
  ino_to_path = (fuse_root_id, text "/") ∷ [];
  path_to_ino = (text "/", fuse_root_id) ∷ [];
  next_ino = fuse_root_id + 1;
}

unfoldable pub path_for_ino : Inodes → ℕ → Option Bytes
path_for_ino t ino = get ino t.ino_to_path

-- `*next += 1` is of 64 bits.
unfoldable pub add_ino : Inodes → Bytes → Inodes × ℕ
add_ino t path = (
  record {
    ino_to_path = insert t.next_ino path t.ino_to_path;
    path_to_ino = insert path t.next_ino t.path_to_ino;
    next_ino = (t.next_ino + 1) % 2 ^ 64;
  },
  t.next_ino,
)

-- The `if let` on the known number.
unfoldable pub known_or_added : Inodes → Bytes → Option ℕ → Inodes × ℕ
known_or_added t path (some ino) = (t, ino)
known_or_added t path none = add_ino t path

unfoldable pub ino_for_path : Inodes → Bytes → Inodes × ℕ
ino_for_path t path = known_or_added t path (get path t.path_to_ino)

-- The numbers that a sequence of calls gives.
unfoldable pub inos_for_paths : Inodes → List Bytes → Inodes × List ℕ
inos_for_paths t [] = (t, [])
inos_for_paths t (p ∷ ps) =
    let (u, i) = ino_for_path t p in let (v, is) = inos_for_paths u ps in (v, i ∷ is)

-- The two maps are inverse to each other, and the next number is free.
pub record IsTable (t : Inodes) : Type 0 where
  pub used : (i : ℕ) (p : Bytes) → get i t.ino_to_path ≡ some p → i < t.next_ino
  pub to_ino : (i : ℕ) (p : Bytes) → get i t.ino_to_path ≡ some p → get p t.path_to_ino ≡ some i
  pub to_path : (i : ℕ) (p : Bytes) → get p t.path_to_ino ≡ some i → get i t.ino_to_path ≡ some p

module _ (t : Inodes) (p : Bytes) (w : IsTable t) (free : get p t.path_to_ino ≡ none) where
  pub add_ino-IsTable : t.next_ino + 1 < 2 ^ 64 → IsTable (add_ino t p).0
  unfolding add_ino
  add_ino-IsTable room = record {
    used = λ i q h. ground (arith, w.used i q, get-insert i t.next_ino p t.ino_to_path, h);
    to_ino = λ i q h. ground (
      arith,
      w.to_ino i q,
      get-insert i t.next_ino p t.ino_to_path,
      get-insert q p t.next_ino t.path_to_ino,
      h,
      bytes_ord.cmp_refl p,
      bytes_ord.eq_of_cmp q p,
    );
    to_path = λ i q h. ground (
      arith,
      w.to_path i q,
      w.used i q,
      get-insert i t.next_ino p t.ino_to_path,
      get-insert q p t.next_ino t.path_to_ino,
      h,
      bytes_ord.eq_of_cmp q p,
    );
  }

-- There is a number for each path of the list.
abbrev Room : Inodes → List Bytes → Type 0
Room t ps = t.next_ino + length ps < 2 ^ 64

module _ (root_id : ℕ) where
  no_inodes : Inodes
  no_inodes = record { ino_to_path = []; path_to_ino = []; next_ino = root_id }
