-- ===== src/Base/Conn.antt =====
-- A database connection: what its own statements see, and what a crash would leave. A statement
-- changes `work`; `commit()` copies it to `saved`; a process that dies keeps `saved` only.

pub record Conn {ℓ} (S : Type ℓ) : Type ℓ where
  pub work : S
  pub saved : S

module _ {ℓ} {S : Type ℓ} where
  abbrev pub write : S → Conn S → Conn S
  write s c = record c { work = s }

  abbrev pub commit : Conn S → Conn S
  commit c = record c { saved = c.work }

  abbrev pub rollback : Conn S → Conn S
  rollback c = record c { work = c.saved }
