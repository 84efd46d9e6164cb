-- ===== src/Prelude/Session.antt =====
-- A database session: the state that its statements see, and the state of the last commit.
pub record Session (S : Type 0) : Type 0 where
  pub current : S
  pub committed : S

module _ {S : Type 0} where
  abbrev pub opened : S → Session S
  opened s = record { current = s; committed = s }

  abbrev pub commit : Session S → Session S
  commit db = record { current = db.current; committed = db.current }

  abbrev pub rollback : Session S → Session S
  rollback db = record { current = db.committed; committed = db.committed }

  -- A statement that writes.
  abbrev pub write : (S → S) → Session S → Session S
  write f db = record { current = f db.current; committed = db.committed }
