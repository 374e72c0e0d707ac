-- ===== src/DeliveryDedup.antt =====
-- src/infra/webhook/delivery-dedup.ts: the ids of the webhook deliveries seen lately, oldest first.
pub mod Window
mod Tests
use oh_my_github_runner.Prelude.{
  ℕ, ◌+◌, String, Bool, true, false, Option, none, some, List, [], ◌∷◌, if◌then◌else◌, ltb, length,
}
use oh_my_github_runner.Prelude.Assoc.{Assoc, lookup, insert, erase}

pub record DeliveryDedupCache : Type 0 where
  pub entries : Assoc ℕ
  pub max_entries : ℕ
  pub ttl_ms : ℕ

-- The loop ends at the first entry that has not expired.
unfoldable pub evict_expired : ℕ → Assoc ℕ → Assoc ℕ
evict_expired now [] = []
evict_expired now ((id, expiry) ∷ m) =
    let rest = evict_expired now m in if ltb now expiry then (id, expiry) ∷ m else rest

abbrev pub without_oldest : Assoc ℕ → Assoc ℕ
without_oldest [] = []
without_oldest (_ ∷ m) = m

-- A new entry goes to the end; one too many drops the oldest.
unfoldable pub record_id : ℕ → String → ℕ → Assoc ℕ → Assoc ℕ
record_id max_entries id expiry m =
    let m' = insert id expiry m in if ltb max_entries (length m') then without_oldest m' else m'

abbrev pub is_live : ℕ → Option ℕ → Bool
is_live now none = false
is_live now (some expiry) = ltb now expiry

-- Whether the id was seen already; if not, it is recorded.
unfoldable pub mark_seen : String → ℕ → DeliveryDedupCache → Bool × DeliveryDedupCache
mark_seen id now c =
    let kept = evict_expired now c.entries in
    if is_live now (lookup id kept)
    then (true, record c { entries = kept })
    else (false, record c { entries = record_id c.max_entries id (now + c.ttl_ms) (erase id kept) })
