-- ===== src/Import/Write/Again.antt =====
-- A transcript that is imported a second time.
use whatsvault.Base.{
  ℕ, suc, ◌≡◌, refl, sym, ◌∙◌, ap, subst, none, some, List, [], ◌∷◌, ◌++◌, inl, inr, arith,
}
use whatsvault.Base.Eq.{◌==◌, nat_eq, string_eq, option_eq, Option-cases, Bool-cases}
use whatsvault.Base.Table.{any}
use whatsvault.Base.Conn.{Conn}
use whatsvault.Import.Batch.{
  Line, Participant, ImportDb, Imported, refused, added, Import, Tools, ImportFresh, lines_of,
  check_import,
}
use whatsvault.Import.Write.{
  insert_batch, Senders, sender_id, insert_senders, import_lines, insert_source, write_batch,
  import_batch,
}
use whatsvault.Import.Write.Lines.{AllPrinted, import_lines-AllPrinted, AllPrinted-same}

module _ (t : Tools) (a : Import) where
  insert_senders-messages :
      (f : ImportFresh) (lines : List Line) (n : ℕ) (senders out : Senders) (db db' : ImportDb)
      → insert_senders f n lines senders db ≡ some (out, db')
      → db'.messages ≡ db.messages
  unfolding insert_senders
  insert_senders-messages f [] n senders out db db' h = cc
  insert_senders-messages f (l ∷ rest) n senders out db db' h =
      let later = insert_senders-messages f rest (suc n) in
      elim (Option-cases (sender_id l.sender senders)) [
        | inr (i, known) ↦ later senders out db db' (ground (arith, known, h))
        | inl new ↦
            elim (Bool-cases (any (λ (x : Participant). x.id == f.participant n) db.participants)) [
              | inl taken ↦ ground (arith, new, taken, h)
              | inr free ↦
                  later ((l.sender, f.participant n) ∷ senders) out
                    (record db {
                      participants =
                          db.participants
                          ++ record {
                            id = f.participant n;
                            batch_id = f.batch;
                            raw_display_name = l.sender;
                          }
                            ∷ [];
                    })
                    db' (ground (arith, new, free, h))
            ]
      ]

  -- The rows around the lines keep the messages.
  record Written (f : ImportFresh) (db : ImportDb) (m : ℕ) (db' : ImportDb) : Type 0 where
    senders : Senders
    before : ImportDb
    after : ImportDb
    kept_before : before.messages ≡ db.messages
    lines : import_lines t a f 0 senders [] (lines_of a.records) before ≡ some (m, after)
    kept_after : db'.messages ≡ after.messages

  write_batch-Written :
      (f : ImportFresh) (db : ImportDb) (m : ℕ) (db' : ImportDb)
      → write_batch t a f db ≡ some (m, db')
      → Written f db m db'
  unfolding write_batch insert_batch insert_source
  write_batch-Written f db m db' h = elim (Option-cases (insert_batch a f.batch db)) [
    | inl taken ↦ ground (arith, taken, h)
    | inr (db₁, batch) ↦ elim (Option-cases (insert_senders f 0 (lines_of a.records) [] db₁)) [
      | inl stopped ↦ ground (arith, batch, stopped, h)
      | inr ((senders, db₂), named) ↦
          elim (Option-cases (import_lines t a f 0 senders [] (lines_of a.records) db₂)) [
            | inl stopped ↦ ground (arith, batch, named, stopped, h)
            | inr ((more, db₃), lines) ↦ elim (Option-cases (insert_source a f db₃)) [
              | inl stopped ↦ ground (arith, batch, named, lines, stopped, h)
              | inr (db₄, source) ↦
                  let same : (more ≡ m) × (db₄ ≡ db') =
                    ground (arith, batch, named, lines, source, h) in
                  let first : db₁.messages ≡ db.messages = ground (arith, batch) in
                  let last : db₄.messages ≡ db₃.messages = ground (arith, source) in
                  record {
                    senders = senders;
                    before = db₂;
                    after = db₃;
                    kept_before =
                        insert_senders-messages f (lines_of a.records) 0 [] senders db₁ db₂ named
                        ∙ first;
                    lines =
                        subst
                          (λ (x : ℕ).
                            import_lines t a f 0 senders [] (lines_of a.records) db₂
                            ≡ some (x, db₃))
                          same.0 lines;
                    kept_after = sym (ap (λ (x : ImportDb). x.messages) same.1) ∙ last;
                  }
            ]
          ]
    ]
  ]

  write_batch-AllPrinted :
      (f : ImportFresh) (db : ImportDb) (m : ℕ) (db' : ImportDb)
      → write_batch t a f db ≡ some (m, db')
      → AllPrinted t a [] (lines_of a.records) db'.messages
  write_batch-AllPrinted f db m db' h =
      let w = write_batch-Written f db m db' h in
      subst (AllPrinted t a [] (lines_of a.records)) (sym w.kept_after)
        (import_lines-AllPrinted t a f w.senders (lines_of a.records) 0 [] w.before m w.after
          w.lines).0

  write_batch-again :
      (f : ImportFresh) (db : ImportDb) (m : ℕ) (db' : ImportDb)
      → AllPrinted t a [] (lines_of a.records) db.messages
      → write_batch t a f db ≡ some (m, db')
      → (m ≡ 0) × (db'.messages ≡ db.messages)
  write_batch-again f db m db' p h =
      let w = write_batch-Written f db m db' h in
      let p' = subst (AllPrinted t a [] (lines_of a.records)) (sym w.kept_before) p in
      let (none_new, kept) =
        AllPrinted-same t a f w.senders (lines_of a.records) 0 [] w.before m w.after p' w.lines in
      (none_new, w.kept_after ∙ kept ∙ w.kept_before)

-- Where an import succeeds, it reports no message added.
abbrev pub AddsNone : Imported → Type 0
AddsNone (refused why) = Unit
AddsNone (added n) = n ≡ 0

import_batch-added :
    (t : Tools) (a : Import) (f : ImportFresh) (c : Conn ImportDb) (n : ℕ)
    → (import_batch t a f c).0 ≡ added n
    → (check_import a ≡ none)
      × (db : ImportDb) × (write_batch t a f c.work ≡ some (n, db))
      × ((import_batch t a f c).1 ≡ record { work = db; saved = db })
unfolding import_batch
import_batch-added t a f c n h = elim (Option-cases (check_import a)) [
  | inr (why, shut) ↦ ground (arith, shut, h)
  | inl gates ↦ elim (Option-cases (write_batch t a f c.work)) [
    | inl stopped ↦ ground (arith, gates, stopped, h)
    | inr ((m, db), done) ↦
        let same : m ≡ n = ground (arith, gates, done, h) in
        (
          gates,
          db,
          subst (λ (x : ℕ). write_batch t a f c.work ≡ some (x, db)) same done,
          rw (import_batch, gates, done) refl,
        )
  ]
]

import_batch-quiet :
    (t : Tools) (a : Import) (f : ImportFresh) (c : Conn ImportDb)
    → c.work ≡ c.saved
    → check_import a ≡ none
    → AllPrinted t a [] (lines_of a.records) c.work.messages
    → AddsNone (import_batch t a f c).0
      × ((import_batch t a f c).1.saved.messages ≡ c.saved.messages)
unfolding import_batch
import_batch-quiet t a f c quiet gates p = elim (Option-cases (write_batch t a f c.work)) [
  | inl stopped ↦ rw (import_batch, gates, stopped) (tt, refl)
  | inr ((m, db), done) ↦
      let (none_new, kept) = write_batch-again t a f c.work m db p done in
      rw (import_batch, gates, done) (none_new, kept ∙ ap (λ (x : ImportDb). x.messages) quiet)
]

-- An import that succeeded, and is made again, adds no message, whatever identifiers are drawn then: it
-- reports none where it succeeds, and the messages of the vault are committed as they were.
pub import_batch-again :
    (t : Tools) (a : Import) (f f' : ImportFresh) (c : Conn ImportDb) (n : ℕ)
    → (import_batch t a f c).0 ≡ added n
    → AddsNone (import_batch t a f' (import_batch t a f c).1).0
      × ((import_batch t a f' (import_batch t a f c).1).1.saved.messages
          ≡ (import_batch t a f c).1.saved.messages)
import_batch-again t a f f' c n h =
    let (open_gates, db, done, now) = import_batch-added t a f c n h in
    let quiet =
      ap (λ (x : Conn ImportDb). x.work) now ∙ sym (ap (λ (x : Conn ImportDb). x.saved) now) in
    let there = write_batch-AllPrinted t a f c.work n db done in
    let same = ap (λ (x : Conn ImportDb). x.work.messages) now in
    import_batch-quiet t a f' (import_batch t a f c).1 quiet open_gates
      (subst (AllPrinted t a [] (lines_of a.records)) (sym same) there)
