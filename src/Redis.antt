-- ===== src/Redis.antt =====
-- What the backend relies on of Redis sorted sets: ZADD, ZADD NX, ZPOPMIN, ZREM, ZCARD, ZSCORE, with
-- their documented behaviour as laws. Redis is not part of the repository: clients take a
-- `SortedSet` as a parameter. Scores are natural numbers.
pub mod Memory
use sphere_platform.Base.{
  ℕ, suc, ◌≤◌, String, Bool, true, false, Option, none, some, ◌==◌, if◌then◌else◌, ◌≡◌,
}
use sphere_platform.Base.Dict.Size.{is_some}

pub record SortedSet : Type 1 where
  pub Z : Type 0
  pub empty : Z
  pub zscore : Z → String → Option ℕ
  pub zadd : Z → String → ℕ → Z
  -- The flag says whether the member is new.
  pub zadd_nx : Z → String → ℕ → Z × Bool
  -- The member with the lowest score, and the set without it.
  pub zpopmin : Z → Option (String × Z)
  -- The flag says whether the member was there.
  pub zrem : Z → String → Z × Bool
  pub zcard : Z → ℕ
  pub zscore-empty : (m : String) → zscore empty m ≡ none
  pub zscore-zadd :
      (z : Z) (k m : String) (s : ℕ)
      → zscore (zadd z k s) m ≡ (if k == m then some s else zscore z m)
  pub zadd_nx_old :
      (z : Z) (k : String) (s t : ℕ) → zscore z k ≡ some t → zadd_nx z k s ≡ (z, false)
  pub zadd_nx_new :
      (z : Z) (k : String) (s : ℕ) → zscore z k ≡ none → zadd_nx z k s ≡ (zadd z k s, true)
  pub zpopmin_none : (z : Z) → zpopmin z ≡ none → (m : String) → zscore z m ≡ none
  pub zpopmin_some :
      (z : Z) (k : String) (z' : Z)
      → zpopmin z ≡ some (k, z')
      → (s : ℕ) × (zscore z k ≡ some s)
        × ((m : String) (t : ℕ) → zscore z m ≡ some t → s ≤ t)
        × ((m : String) → zscore z' m ≡ (if k == m then none else zscore z m))
  pub zscore-zrem :
      (z : Z) (k m : String) → zscore (zrem z k).0 m ≡ (if k == m then none else zscore z m)
  pub zrem_flag : (z : Z) (k : String) → (zrem z k).1 ≡ is_some (zscore z k)
  pub zcard-empty : zcard empty ≡ 0
  pub zcard-zadd :
      (z : Z) (k : String) (s : ℕ)
      → zcard (zadd z k s) ≡ (if is_some (zscore z k) then zcard z else suc (zcard z))
  pub zcard-zpopmin :
      (z : Z) (k : String) (z' : Z) → zpopmin z ≡ some (k, z') → zcard z ≡ suc (zcard z')
