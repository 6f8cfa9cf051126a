-- ===== src/Namespace/Keys/Apart.antt =====
-- The kinds of key (crates/alefs-namespace/src/keys.rs) against each other, and the ids of nodes.
use alefsdb.Prelude.{ℕ, ◌^◌, ◌<◌, ◌≡◌, ◌≢◌, ap, ◌∙◌, sym, some, [], ◌∷◌, drop, arith}
use alefsdb.Bytes.{Bytes, text, be_bytes, from_be, from_be-be_bytes, length-be_bytes}
use alefsdb.Namespace.Keys.{meta_next_id, node_key, child_key, type_index_key, encode_id, decode_id}

abbrev head : Bytes → ℕ
head [] = 0
head (b ∷ bs) = b

abbrev pub IsU64 : ℕ → Type 0
IsU64 id = id < 2 ^ 64

be_bytes_injective : (a b : ℕ) → IsU64 a → IsU64 b → be_bytes 8 a ≡ be_bytes 8 b → a ≡ b
be_bytes_injective a b h k e = sym (from_be-be_bytes 8 a h) ∙ ap from_be e ∙ from_be-be_bytes 8 b k

pub decode_id-encode_id : (id : ℕ) → IsU64 id → decode_id (encode_id id) ≡ some id
unfolding decode_id encode_id
decode_id-encode_id id h = rw (length-be_bytes 8 id, from_be-be_bytes 8 id h)

pub node_key_injective : (a b : ℕ) → IsU64 a → IsU64 b → node_key a ≡ node_key b → a ≡ b
unfolding node_key text
node_key_injective a b h k e = be_bytes_injective a b h k (ap (drop 5) e)

pub node-ne-child : (a b : ℕ) (s : Bytes) → node_key a ≢ child_key b s
unfolding node_key child_key text
node-ne-child a b s = λ e. absurd (omega (arith, ap head e))

pub node-ne-index : (a b : ℕ) (s : Bytes) → node_key a ≢ type_index_key s b
unfolding node_key type_index_key text
node-ne-index a b s = λ e. absurd (omega (arith, ap head e))

pub node-ne-meta : (a : ℕ) → node_key a ≢ meta_next_id
unfolding node_key meta_next_id text
node-ne-meta a = λ e. absurd (omega (arith, ap head e))

pub child-ne-index : (a b : ℕ) (s t : Bytes) → child_key a s ≢ type_index_key t b
unfolding child_key type_index_key text
child-ne-index a b s t = λ e. absurd (omega (arith, ap head e))

pub child-ne-meta : (a : ℕ) (s : Bytes) → child_key a s ≢ meta_next_id
unfolding child_key meta_next_id text
child-ne-meta a s = λ e. absurd (omega (arith, ap head e))

pub index-ne-meta : (a : ℕ) (s : Bytes) → type_index_key s a ≢ meta_next_id
unfolding type_index_key meta_next_id text
index-ne-meta a s = cc
