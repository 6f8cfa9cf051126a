-- ===== src/Storage/Batch/Scan.antt =====
-- `scan_prefix`: the rows from the prefix on, up to the first that does not start with it.
use alefsdb.Prelude.{
  ◌≡◌, refl, ap, subst, sym, true, false, [], ◌∷◌, append-nil, arith, if◌then◌else◌, Bool-cases,
  inl, inr,
}
use alefsdb.Prelude.Order.{nat_ord, list_ord, cmp_list}
use alefsdb.Prelude.OrdMap.{Above, Above-trans, Sorted, Ordering-cases}
use alefsdb.Bytes.{Bytes, starts_with, starts_with-append, bytes_ord}
use Prim.Native.Nat.Ordering.{lt}
use alefsdb.Storage.Batch.{ByteMap}

-- `map.range(prefix..)`
unfoldable pub range_from : Bytes → ByteMap → ByteMap
range_from p [] = []
range_from p ((k, v) ∷ m) = elim (bytes_ord.cmp k p) [ lt ↦ range_from p m | _ ↦ (k, v) ∷ m ]

unfoldable pub while_prefixed : Bytes → ByteMap → ByteMap
while_prefixed p [] = []
while_prefixed p ((k, v) ∷ m) = if starts_with p k then (k, v) ∷ while_prefixed p m else []

unfoldable pub scan_prefix : Bytes → ByteMap → ByteMap
unfolding range_from while_prefixed
scan_prefix p m = while_prefixed p (range_from p m)

-- All rows whose key starts with the prefix.
unfoldable pub prefixed : Bytes → ByteMap → ByteMap
prefixed p [] = []
prefixed p ((k, v) ∷ m) = if starts_with p k then (k, v) ∷ prefixed p m else prefixed p m

-- A key that starts with the prefix is not below it.
starts_with-below : (p k : Bytes) → bytes_ord.cmp k p ≡ lt → starts_with p k ≡ false
unfolding starts_with cmp_list
starts_with-below [] [] h = cc
starts_with-below [] (b ∷ bs) h = cc
starts_with-below (a ∷ p) [] h = refl
starts_with-below (a ∷ p) (b ∷ bs) h = ground (arith, starts_with-below p bs)

-- Above a key that is not below the prefix and does not start with it, no key starts with it.
starts_with-above :
    (p k j : Bytes)
    → bytes_ord.cmp p k ≡ lt
    → starts_with p k ≡ false
    → bytes_ord.cmp k j ≡ lt
    → starts_with p j ≡ false
unfolding starts_with cmp_list
starts_with-above [] k j h s l = cc
starts_with-above (a ∷ p) [] j h s l = cc
starts_with-above (a ∷ p) (b ∷ k) [] h s l = refl
starts_with-above (a ∷ p) (b ∷ k) (c ∷ j) h s l = ground (arith, starts_with-above p k j)

prefixed-Above :
    (p k : Bytes) (m : ByteMap)
    → bytes_ord.cmp p k ≡ lt
    → starts_with p k ≡ false
    → Above k m
    → prefixed p m ≡ []
unfolding prefixed
prefixed-Above p k [] h s a = refl
prefixed-Above p k ((j, v) ∷ m) h s a =
    rw (starts_with-above p k j h s a.0) (prefixed-Above p k m h s a.1)

while_prefixed-Above :
    (p : Bytes) (m : ByteMap) → Above p m → Sorted m → while_prefixed p m ≡ prefixed p m
unfolding while_prefixed prefixed
while_prefixed-Above p [] a s = refl
while_prefixed-Above p ((k, v) ∷ m) a s = elim (Bool-cases (starts_with p k)) [
  | inl h ↦ rw h (ap (λ r. (k, v) ∷ r) (while_prefixed-Above p m a.1 s.1))
  | inr h ↦ rw h (sym (prefixed-Above p k m a.0 h s.0))
]

starts_with_self : (p : Bytes) → starts_with p p ≡ true
starts_with_self p = rw append-nil at (starts_with-append p [])

-- In a sorted map the scan returns the rows whose key starts with the prefix, in order, and no other.
pub scan_prefix-eq-prefixed : (p : Bytes) (m : ByteMap) → Sorted m → scan_prefix p m ≡ prefixed p m
unfolding scan_prefix prefixed
scan_prefix-eq-prefixed p [] s = refl
scan_prefix-eq-prefixed p ((k, v) ∷ m) s = elim (Ordering-cases (bytes_ord.cmp k p)) [
  | inl h ↦ rw (h, range_from, starts_with-below p k h) (scan_prefix-eq-prefixed p m s.1)
  | inr (inl h) ↦
      let e = bytes_ord.eq_of_cmp k p h in
      let st : starts_with p k ≡ true =
        subst (λ x. starts_with p x ≡ true) (sym e) (starts_with_self p) in
      let rest = while_prefixed-Above p m (subst (λ x. Above x m) e s.0) s.1 in
      rw (h, range_from) (rw st (ap (λ r. (k, v) ∷ r) rest))
  | inr (inr h) ↦
      let below = bytes_ord.lt_of_gt k p h in
      rw (h, range_from)
        (while_prefixed-Above p ((k, v) ∷ m) (below, Above-trans p k m below s.0) s)
]
