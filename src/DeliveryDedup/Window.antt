-- ===== src/DeliveryDedup/Window.antt =====
-- `markSeen`: how long an id is remembered, and how many are.
use oh_my_github_runner.Prelude.{
  ℕ, ◌+◌, ◌≤◌, ◌<◌, String, ◌≡◌, refl, Bool, true, false, none, some, [], ◌∷◌, ◌++◌, arith,
  if◌then◌else◌, ltb, length, length-append, by_test, ap, ◌∙◌,
}
use oh_my_github_runner.Prelude.Assoc.{
  Assoc, lookup, erase, insert_new, lookup-erase, length-erase-le,
}
use oh_my_github_runner.DeliveryDedup.{
  DeliveryDedupCache, evict_expired, without_oldest, record_id, is_live, mark_seen,
}

length-evict-le : (now : ℕ) (m : Assoc ℕ) → length (evict_expired now m) ≤ length m
unfolding evict_expired
length-evict-le now [] = omega arith
length-evict-le now ((id, e) ∷ m) = ground (arith, length-evict-le now m)

-- An entry that has not expired is not evicted.
evict-live :
    (now : ℕ) (id : String) (expiry : ℕ) (m : Assoc ℕ)
    → lookup id m ≡ some expiry
    → now < expiry
    → lookup id (evict_expired now m) ≡ some expiry
unfolding evict_expired lookup
evict-live now id expiry [] e h = cc
evict-live now id expiry ((j, x) ∷ m) e h = ground (arith, evict-live now id expiry m)

length-record_id :
    (max_entries : ℕ) (id : String) (expiry : ℕ) (m : Assoc ℕ)
    → lookup id m ≡ none
    → length m ≤ max_entries
    → length (record_id max_entries id expiry m) ≤ max_entries
unfolding record_id
length-record_id max_entries id expiry m fresh h = rw (insert_new id expiry m fresh) (bounded m h)
  where
    bounded :
        (m : Assoc ℕ)
        → length m ≤ max_entries
        → length (
            if ltb max_entries (length (m ++ (id, expiry) ∷ []))
            then without_oldest (m ++ (id, expiry) ∷ [])
            else m ++ (id, expiry) ∷ [])
          ≤ max_entries
    bounded [] h = ground arith
    bounded (x ∷ m) h = ground (arith, length-append m ((id, expiry) ∷ []))

lookup-snoc :
    (id : String) (expiry : ℕ) (m : Assoc ℕ)
    → lookup id m ≡ none
    → lookup id (m ++ (id, expiry) ∷ []) ≡ some expiry
unfolding lookup
lookup-snoc id expiry [] h = ground arith
lookup-snoc id expiry ((j, x) ∷ m) h = ground (arith, lookup-snoc id expiry m)

lookup-record_id :
    (max_entries : ℕ) (id : String) (expiry : ℕ) (m : Assoc ℕ)
    → lookup id m ≡ none
    → 0 < max_entries
    → lookup id (record_id max_entries id expiry m) ≡ some expiry
unfolding record_id lookup
lookup-record_id max_entries id expiry m fresh h = rw (insert_new id expiry m fresh) (found m fresh)
  where
    found :
        (m : Assoc ℕ)
        → lookup id m ≡ none
        → lookup id (
            if ltb max_entries (length (m ++ (id, expiry) ∷ []))
            then without_oldest (m ++ (id, expiry) ∷ [])
            else m ++ (id, expiry) ∷ [])
          ≡ some expiry
    found [] fresh = ground (arith, lookup-snoc id expiry [])
    found ((j, w) ∷ m) fresh =
        by_test (λ (r : Assoc ℕ). lookup id r ≡ some expiry)
          (ltb max_entries (length ((j, w) ∷ m ++ (id, expiry) ∷ [])))
          (λ _. lookup-snoc id expiry m (ground arith))
          (λ _. lookup-snoc id expiry ((j, w) ∷ m) fresh)

erased : (id : String) (m : Assoc ℕ) → lookup id (erase id m) ≡ none
erased id m = ground (arith, lookup-erase id id m)

-- A cache that holds no more entries than its limit holds no more after a delivery.
pub mark_seen-bounded :
    (id : String) (now : ℕ) (c : DeliveryDedupCache)
    → length c.entries ≤ c.max_entries
    → length (mark_seen id now c).1.entries ≤ c.max_entries
unfolding mark_seen
mark_seen-bounded id now c h =
    by_test (λ (r : Bool × DeliveryDedupCache). length r.1.entries ≤ c.max_entries)
      (is_live now (lookup id (evict_expired now c.entries)))
      (λ _. ground (arith, length-evict-le now c.entries))
      (λ _.
        length-record_id c.max_entries id (now + c.ttl_ms) (erase id (evict_expired now c.entries))
          (erased id _)
          (ground (
            arith,
            length-erase-le id (evict_expired now c.entries),
            length-evict-le now c.entries,
          )))

abbrev recorded : String → ℕ → DeliveryDedupCache → DeliveryDedupCache
recorded id now c = record c {
  entries = record_id c.max_entries id (now + c.ttl_ms) (erase id (evict_expired now c.entries));
}

mark_seen-first :
    (id : String) (now : ℕ) (c : DeliveryDedupCache)
    → (mark_seen id now c).0 ≡ false
    → (mark_seen id now c).1 ≡ recorded id now c
unfolding mark_seen
mark_seen-first id now c =
    by_test (λ (r : Bool × DeliveryDedupCache). r.0 ≡ false → r.1 ≡ recorded id now c)
      (is_live now (lookup id (evict_expired now c.entries))) (λ _ h. cc) (λ _ _. refl)

mark_seen-live :
    (id : String) (later expiry : ℕ) (c : DeliveryDedupCache)
    → lookup id c.entries ≡ some expiry
    → later < expiry
    → (mark_seen id later c).0 ≡ true
unfolding mark_seen
mark_seen-live id later expiry c e h = ground (arith, evict-live later id expiry c.entries e h)

-- A delivery that is seen for the first time, and comes again before its time to live is over, is
-- then reported as seen, in a cache with room for an entry.
pub mark_seen-again :
    (id : String) (now later : ℕ) (c : DeliveryDedupCache)
    → 0 < c.max_entries
    → (mark_seen id now c).0 ≡ false
    → later < now + c.ttl_ms
    → (mark_seen id later (mark_seen id now c).1).0 ≡ true
mark_seen-again id now later c room first soon =
    ap (λ c'. (mark_seen id later c').0) (mark_seen-first id now c first)
    ∙ mark_seen-live id later (now + c.ttl_ms) (recorded id now c)
        (lookup-record_id c.max_entries id (now + c.ttl_ms) _ (erased id _) room) soon
