-- ===== src/Types/Codec/Sorting.antt =====
-- The sort and the removal of duplicates in the encoding of a set.
use alefsdb.Prelude.{◌≡◌, refl, ap, none, some, List, [], ◌∷◌, arith}
use alefsdb.Prelude.Order.{list_ord, nat_ord}
use alefsdb.Bytes.{Bytes, bytes_ord, same_iff}
use alefsdb.Types.Codec.Encode.{insert_payload, sort_payloads, dedup_after, dedup}
use alefsdb.Types.Codec.Canonical.{Follows}

insert_payload-Follows :
    (p : Bytes) (ps : List Bytes) → Follows (some p) ps → insert_payload p ps ≡ p ∷ ps
unfolding insert_payload
insert_payload-Follows p [] h = refl
insert_payload-Follows p (q ∷ qs) h = ground (arith, h.0)

Follows-none : (p : Bytes) (ps : List Bytes) → Follows (some p) ps → Follows none ps
Follows-none p [] h = tt
Follows-none p (q ∷ qs) h = h.1

pub sort_payloads-Follows : (ps : List Bytes) → Follows none ps → sort_payloads ps ≡ ps
unfolding sort_payloads
sort_payloads-Follows [] h = refl
sort_payloads-Follows (p ∷ ps) h =
    rw (sort_payloads-Follows ps (Follows-none p ps h)) (insert_payload-Follows p ps h)

dedup_after-Follows : (p : Bytes) (ps : List Bytes) → Follows (some p) ps → dedup_after p ps ≡ ps
unfolding dedup_after
dedup_after-Follows p [] h = refl
dedup_after-Follows p (q ∷ qs) h =
    ground (arith, same_iff q p, bytes_ord.cmp_refl p, h.0, dedup_after-Follows q qs h.1)

pub dedup-Follows : (ps : List Bytes) → Follows none ps → dedup ps ≡ ps
unfolding dedup
dedup-Follows [] h = refl
dedup-Follows (p ∷ ps) h = ap (λ r. p ∷ r) (dedup_after-Follows p ps h)
