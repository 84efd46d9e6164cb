-- ===== src/RateLimit/Buckets.antt =====
-- The bucket of a key against all the times at which a request of the key was admitted.
use edufurthersf_be.Prelude.{
  ℕ, ◌+◌, ◌≤◌, ◌≡◌, refl, sym, ap, ◌∙◌, inl, inr, Bool, true, Option, none, some, List, [], ◌∷◌,
  ◌++◌, keep, All, ltb, Bool-cases, arith,
}
use edufurthersf_be.RateLimit.{Bucket, is_idle, trimmed, unless_idle, or_empty}

-- Ascending, and not after a time.
abbrev pub IsUpTo : ℕ → Bucket → Type 0
IsUpTo now [] = Unit
IsUpTo now (t ∷ bucket) = (t ≤ now) × All (λ u. t ≤ u) bucket × IsUpTo now bucket

module _ (window : ℕ) where
  abbrev pub is_recent : ℕ → ℕ → Bool
  is_recent now t = ltb now (t + window)

  -- What the limiter keeps for a key agrees with the log on what is recent.
  pub record Agrees (now : ℕ) (bucket times : List ℕ) : Type 0 where
    pub up_to : IsUpTo now bucket
    pub recent : keep (is_recent now) bucket ≡ keep (is_recent now) times

  UpTo-later : (now later : ℕ) (b : Bucket) → now ≤ later → IsUpTo now b → IsUpTo later b
  UpTo-later now later [] l h = tt
  UpTo-later now later (t ∷ b) l h = (omega arith, h.1, UpTo-later now later b l h.2)

  keep_later :
      (now later : ℕ) (b : List ℕ)
      → now ≤ later
      → keep (is_recent later) (keep (is_recent now) b) ≡ keep (is_recent later) b
  keep_later now later [] l = refl
  keep_later now later (t ∷ b) l = ground (arith, keep_later now later b)

  keep_all :
      (now t : ℕ) (b : Bucket)
      → is_recent now t ≡ true
      → All (λ u. t ≤ u) b
      → keep (is_recent now) b ≡ b
  keep_all now t [] r h = refl
  keep_all now t (u ∷ b) r h = ground (arith, keep_all now t b)

  pub trimmed-recent :
      (now : ℕ) (b : Bucket) → IsUpTo now b → trimmed window now b ≡ keep (is_recent now) b
  unfolding trimmed
  trimmed-recent now [] h = refl
  trimmed-recent now (t ∷ b) h = ground (arith, trimmed-recent now b, keep_all now t b)

  idle-recent :
      (now : ℕ) (b : Bucket)
      → IsUpTo now b
      → is_idle window now b ≡ true
      → keep (is_recent now) b ≡ []
  unfolding is_idle
  idle-recent now [] h e = refl
  idle-recent now (t ∷ []) h e = ground arith
  idle-recent now (t ∷ u ∷ b) h e =
      let before : t ≤ u = h.1.0 in ground (arith, idle-recent now (u ∷ b) h.2 e)

  -- A bucket that the sweep deletes holds nothing recent.
  pub Agrees-unless_idle :
      (now : ℕ) (o : Option Bucket) (times : List ℕ)
      → Agrees now (or_empty o) times
      → Agrees now (or_empty (unless_idle window now o)) times
  Agrees-unless_idle now none times h = h
  Agrees-unless_idle now (some b) times h = elim (Bool-cases (is_idle window now b)) [
    | inl e ↦ rw e (record { up_to = tt; recent = sym (idle-recent now b h.up_to e) ∙ h.recent })
    | inr e ↦ rw e h
  ]

  pub Agrees-later :
      (now later : ℕ) (b times : List ℕ) → now ≤ later → Agrees now b times → Agrees later b times
  Agrees-later now later b times l h = record {
    up_to = UpTo-later now later b l h.up_to;
    recent =
        sym (keep_later now later b l)
        ∙ ap (keep (is_recent later)) h.recent
        ∙ keep_later now later times l;
  }

  keep_idem :
      (now : ℕ) (b : List ℕ)
      → keep (is_recent now) (keep (is_recent now) b) ≡ keep (is_recent now) b
  keep_idem now b = keep_later now now b (omega arith)

  All-keep_times :
      (now t : ℕ) (b : List ℕ) → All (λ u. t ≤ u) b → All (λ u. t ≤ u) (keep (is_recent now) b)
  All-keep_times now t [] h = tt
  All-keep_times now t (u ∷ b) h = ground (arith, All-keep_times now t b)

  UpTo-keep : (now : ℕ) (b : Bucket) → IsUpTo now b → IsUpTo now (keep (is_recent now) b)
  UpTo-keep now [] h = tt
  UpTo-keep now (t ∷ b) h = ground (arith, UpTo-keep now b, All-keep_times now t b)

  pub Agrees-kept :
      (now : ℕ) (b times : List ℕ) → Agrees now b times → Agrees now (keep (is_recent now) b) times
  Agrees-kept now b times h = record {
    up_to = UpTo-keep now b h.up_to;
    recent = keep_idem now b ∙ h.recent;
  }

  All-added :
      (now t : ℕ) (b : Bucket) → t ≤ now → All (λ u. t ≤ u) b → All (λ u. t ≤ u) (b ++ now ∷ [])
  All-added now t [] l h = (l, tt)
  All-added now t (u ∷ b) l h = (h.0, All-added now t b l h.1)

  UpTo-added : (now : ℕ) (b : Bucket) → IsUpTo now b → IsUpTo now (b ++ now ∷ [])
  UpTo-added now [] h = (omega arith, tt, tt)
  UpTo-added now (t ∷ b) h = (h.0, All-added now t b h.0 h.1, UpTo-added now b h.2)

  keep-added :
      (now t : ℕ) (b : List ℕ)
      → keep (is_recent now) (b ++ t ∷ []) ≡ keep (is_recent now) b ++ keep (is_recent now) (t ∷ [])
  keep-added now t [] = refl
  keep-added now t (u ∷ b) = ground (arith, keep-added now t b)

  pub Agrees-added :
      (now : ℕ) (b times : List ℕ)
      → Agrees now b times
      → Agrees now (b ++ now ∷ []) (times ++ now ∷ [])
  Agrees-added now b times h = record {
    up_to = UpTo-added now b h.up_to;
    recent =
        keep-added now now b
        ∙ ap (λ xs. xs ++ keep (is_recent now) (now ∷ [])) h.recent
        ∙ sym (keep-added now now times);
  }
