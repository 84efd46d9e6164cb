-- ===== src/Sessions/Resumed.antt =====
-- A visitor who presents the token of a session is given that session again.
use edufurthersf_be.Prelude.{
  ℕ, ◌≡◌, refl, sym, inl, inr, true, false, Option, none, some, List, [], ◌∷◌, ◌++◌, find, truthy,
  ltb, Bool-cases, Option-cases, All, All-In, In, find-In, ok, arith,
}
use edufurthersf_be.Prelude.Text.{Text, text_eq, text_eq_refl}
use edufurthersf_be.Time.{Instant}
use edufurthersf_be.Sessions.{
  AnonymousSession, Resolved, is_live, get_existing_session, cookie_for, created_session, is_taken,
  get_or_create_session,
}

-- No two sessions have one token, and no token is empty.
abbrev pub IsNamed : List AnonymousSession → Type 0
IsNamed [] = Unit
IsNamed (s ∷ rows) =
    (truthy s.pseudonymous_id ≡ true)
    × All (λ q. text_eq s.pseudonymous_id q.pseudonymous_id ≡ false) rows
    × IsNamed rows

-- What a cookie with the token of a session finds until the session expires.
abbrev pub Resumes : List AnonymousSession → AnonymousSession → Type 0
Resumes rows s =
    (now : Instant)
    → ltb now s.expires_at ≡ true
    → get_existing_session rows now (some s.pseudonymous_id) ≡ some s

live_later :
    (rows : List AnonymousSession) (cookie : Text) (s : AnonymousSession) (asked now : Instant)
    → IsNamed rows
    → find (is_live cookie asked) rows ≡ some s
    → ltb now s.expires_at ≡ true
    → find (is_live s.pseudonymous_id now) rows ≡ some s
live_later [] cookie s asked now k e l = ground arith
live_later (q ∷ rows) cookie s asked now k e l = elim (Bool-cases (is_live cookie asked q)) [
  | inl c ↦
      let first : some q ≡ some s = rw c at e in
      let same : q ≡ s = cc in rw (same, text_eq_refl s.pseudonymous_id, l) refl
  | inr c ↦
      let deeper : find (is_live cookie asked) rows ≡ some s = rw c at e in
      let other : text_eq q.pseudonymous_id s.pseudonymous_id ≡ false =
        All-In (λ w. text_eq q.pseudonymous_id w.pseudonymous_id ≡ false) rows k.1
          (find-In (is_live cookie asked) rows deeper).0 in
      rw other (live_later rows cookie s asked now k.2 deeper l)
]

added_live :
    (rows : List AnonymousSession) (s : AnonymousSession) (now : Instant)
    → is_taken s.session_id s.pseudonymous_id rows ≡ false
    → ltb now s.expires_at ≡ true
    → find (is_live s.pseudonymous_id now) (rows ++ s ∷ []) ≡ some s
added_live [] s now h l = rw (text_eq_refl s.pseudonymous_id, l) refl
added_live (q ∷ rows) s now h l = ground (arith, added_live rows s now)

All-added :
    (P : AnonymousSession → Type 0) (s : AnonymousSession) (rows : List AnonymousSession)
    → All P rows
    → P s
    → All P (rows ++ s ∷ [])
All-added P s [] h k = (k, tt)
All-added P s (q ∷ rows) h k = (h.0, All-added P s rows h.1 k)

added-IsNamed :
    (rows : List AnonymousSession) (s : AnonymousSession)
    → IsNamed rows
    → truthy s.pseudonymous_id ≡ true
    → is_taken s.session_id s.pseudonymous_id rows ≡ false
    → IsNamed (rows ++ s ∷ [])
added-IsNamed [] s k t h = (t, tt, tt)
added-IsNamed (q ∷ rows) s k t h =
    let differs : text_eq q.pseudonymous_id s.pseudonymous_id ≡ false = ground arith in
    (
      k.0,
      All-added (λ w. text_eq q.pseudonymous_id w.pseudonymous_id ≡ false) s rows k.1 differs,
      added-IsNamed rows s k.2 t (ground arith),
    )

-- What the lookup finds has the token that was presented, which is not empty.
found_named :
    (rows : List AnonymousSession) (s : AnonymousSession)
    → IsNamed rows
    → In s rows
    → truthy s.pseudonymous_id ≡ true
found_named [] s k i = elim i [ ]
found_named (q ∷ rows) s k (inl e) = rw (sym e) k.0
found_named (q ∷ rows) s k (inr i) = found_named rows s k.2 i

find_live :
    (rows : List AnonymousSession) (cookie : Option Text) (s : AnonymousSession) (now : Instant)
    → get_existing_session rows now cookie ≡ some s
    → (presented : Text) × (find (is_live presented now) rows ≡ some s)
unfolding get_existing_session
find_live rows none s now e = ground arith
find_live rows (some []) s now e = ground arith
find_live rows (some (c ∷ cs)) s now e = (c ∷ cs, e)

found-Resumes :
    (rows : List AnonymousSession) (cookie : Option Text) (s : AnonymousSession) (now : Instant)
    → IsNamed rows
    → get_existing_session rows now cookie ≡ some s
    → Resumes rows s
unfolding get_existing_session
found-Resumes rows cookie s now k e later l =
    let (presented, f) = find_live rows cookie s now e in
    let named = found_named rows s k (find-In (is_live presented now) rows f).0 in
    rw named (live_later rows presented s now later k f l)

created-Resumes :
    (rows : List AnonymousSession) (s : AnonymousSession)
    → truthy s.pseudonymous_id ≡ true
    → is_taken s.session_id s.pseudonymous_id rows ≡ false
    → Resumes (rows ++ s ∷ []) s
unfolding get_existing_session
created-Resumes rows s t h now l = rw t (added_live rows s now h l)

-- In a table where no two sessions have one token and no token is empty, with a fresh id and a fresh token that is
-- not empty, resolving the visitor's session succeeds, keeps the table so, and gives a session that its own
-- token finds at every time before it expires.
pub session_returns :
    (rows : List AnonymousSession) (now : Instant) (cookie : Option Text) (session_id : ℕ)
    (token : Text) (later : Instant)
    → IsNamed rows
    → truthy token ≡ true
    → is_taken session_id token rows ≡ false
    → (r : Resolved) × (get_or_create_session rows now cookie session_id token later ≡ ok r)
      × IsNamed r.rows
      × Resumes r.rows r.session
unfolding get_or_create_session
session_returns rows now cookie session_id token later k t fresh =
    elim (Option-cases (get_existing_session rows now cookie)) [
      | inl e ↦
          let s = created_session session_id token later in
          (
            record { session = s; set_cookie = some (cookie_for s); rows = rows ++ s ∷ [] },
            rw (e, fresh, get_or_create_session) refl,
            added-IsNamed rows s k t fresh,
            created-Resumes rows s t fresh,
          )
      | inr (s, e) ↦ (
        record { session = s; set_cookie = none; rows = rows },
        rw (e, get_or_create_session) refl,
        k,
        found-Resumes rows cookie s now k e,
      )
    ]
