-- ===== src/Redis/Memory.antt =====
-- Sorted sets kept in memory, as a dict from members to scores: the laws can be met.
use sphere_platform.Base.{
  ℕ, suc, ◌≤◌, String, Bool, true, false, Option, none, some, [], ◌∷◌, if◌then◌else◌, ◌≡◌, refl,
  leb, length, arith, eq_iff, inl, inr, Bool-cases, Option-cases, leb→le, ap, ◌∙◌,
}
use sphere_platform.Base.Dict.{Dict, get, put, remove, get-put, get-remove}
use sphere_platform.Base.Dict.Size.{
  is_some, IsDict, put-IsDict, remove-IsDict, length-put, length-remove,
}
use sphere_platform.Redis.{SortedSet}

pub record Scores : Type 0 where
  pub entries : Dict ℕ
  pub distinct : IsDict entries

abbrev smaller : String × ℕ → String × ℕ → String × ℕ
smaller (k, s) (m, t) = if leb s t then (k, s) else (m, t)

unfoldable pub least : Dict ℕ → Option (String × ℕ)
least [] = none
least ((k, s) ∷ d) = elim (least d) [ none ↦ some (k, s) | some p ↦ some (smaller (k, s) p) ]

least-none : (d : Dict ℕ) → least d ≡ none → (m : String) → get d m ≡ none
unfolding least get
least-none [] h m = refl
least-none ((k, s) ∷ d) h m = ground arith

pub record Least (d : Dict ℕ) (k : String) (s : ℕ) : Type 0 where
  at : get d k ≡ some s
  le : (m : String) (t : ℕ) → get d m ≡ some t → s ≤ t

pub least-Least : (d : Dict ℕ) (k : String) (s : ℕ) → IsDict d → least d ≡ some (k, s) → Least d k s
unfolding least get
least-Least [] k s h e = cc
least-Least ((j, w) ∷ d) k s h e = elim (Option-cases (least d)) [
  | inl n ↦ record {
    at = ground (arith, n, e, eq_iff j k);
    le = λ m t g. ground (arith, n, e, eq_iff j m, least-none d n m);
  }
  | inr ((m, t), n) ↦
      let ih : Least d m t = least-Least d m t h.1 n in
      elim (Bool-cases (leb w t)) [
        | inl b ↦ record {
          at = ground (arith, n, b, e, eq_iff j k, eq_iff j m);
          le = λ m' t' g. ground (arith, n, b, e, eq_iff j m', leb→le w t b, ih.le m' t');
        }
        | inr b ↦ record {
          at = ground (arith, n, b, e, h.0, ih.at, eq_iff j k, eq_iff j m);
          le = λ m' t' g. ground (arith, n, b, e, eq_iff j m', ih.le m' t');
        }
      ]
]

abbrev stored : Scores → String → ℕ → Scores
stored z k s = record {
  entries = put z.entries k s;
  distinct = put-IsDict z.entries k s z.distinct;
}

abbrev without : Scores → String → Scores
without z k = record {
  entries = remove z.entries k;
  distinct = remove-IsDict z.entries k z.distinct;
}

abbrev popped : Scores → Option (String × ℕ) → Option (String × Scores)
popped z none = none
popped z (some (k, s)) = some (k, without z k)

abbrev pop : Scores → Option (String × Scores)
pop z = popped z (least z.entries)

pub pop-none : (z : Scores) → pop z ≡ none → (m : String) → get z.entries m ≡ none
pop-none z h m = turn (least z.entries) refl h
  where
    turn :
        (o : Option (String × ℕ)) → least z.entries ≡ o → popped z o ≡ none → get z.entries m ≡ none
    turn none n e = least-none z.entries n m
    turn (some (k, s)) n e = cc

pub pop-some :
    (z : Scores) (k : String) (z' : Scores)
    → pop z ≡ some (k, z')
    → (s : ℕ) × (least z.entries ≡ some (k, s)) × (z' ≡ without z k)
pop-some z k z' h = turn (least z.entries) refl h
  where
    turn :
        (o : Option (String × ℕ))
        → least z.entries ≡ o
        → popped z o ≡ some (k, z')
        → (s : ℕ) × (least z.entries ≡ some (k, s)) × (z' ≡ without z k)
    turn none n e = cc
    turn (some (j, s)) n e = (s, cc, cc)

unfoldable pub add_new : Scores → String → ℕ → Scores × Bool
add_new z k s = if is_some (get z.entries k) then (z, false) else (stored z k s, true)

pub add_new_old :
    (z : Scores) (k : String) (s t : ℕ) → get z.entries k ≡ some t → add_new z k s ≡ (z, false)
unfolding add_new
add_new_old z k s t h = ground (arith, h)

pub add_new_new :
    (z : Scores) (k : String) (s : ℕ)
    → get z.entries k ≡ none
    → add_new z k s ≡ (stored z k s, true)
unfolding add_new
add_new_new z k s h = ground (arith, h)

pub pop-length :
    (z : Scores) (k : String) (z' : Scores)
    → pop z ≡ some (k, z')
    → length z.entries ≡ suc (length z'.entries)
pop-length z k z' h =
    let (s, n, e) = pop-some z k z' h in
    let l : Least z.entries k s = least-Least z.entries k s z.distinct n in
    ground (arith, length-remove z.entries k z.distinct, l.at, ap (λ x. length x.entries) e)

unfoldable pub memory : SortedSet
unfolding get put remove least add_new
memory = record {
  Z = Scores;
  empty = record { entries = []; distinct = tt };
  zscore = λ z m. get z.entries m;
  zadd = stored;
  zadd_nx = add_new;
  zpopmin = pop;
  zrem = λ z k. (without z k, is_some (get z.entries k));
  zcard = λ z. length z.entries;
  zscore-empty = λ m. refl;
  zscore-zadd = λ z k m s. get-put z.entries k m s;
  zadd_nx_old = add_new_old;
  zadd_nx_new = add_new_new;
  zpopmin_none = pop-none;
  zpopmin_some = λ z k z' h.
      let (s, n, e) = pop-some z k z' h in
      let l : Least z.entries k s = least-Least z.entries k s z.distinct n in
      (s, l.at, l.le, λ m. ap (λ x. get x.entries m) e ∙ get-remove z.entries k m);
  zscore-zrem = λ z k m. get-remove z.entries k m;
  zrem_flag = λ z k. refl;
  zcard-empty = refl;
  zcard-zadd = λ z k s. length-put z.entries k s;
  zcard-zpopmin = pop-length;
}
