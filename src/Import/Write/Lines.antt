-- ===== src/Import/Write/Lines.antt =====
-- The loop of `import_batch` over the lines: the fingerprints that it leaves, and what it adds where they
-- are there already.
use whatsvault.Base.{
  ℕ, suc, ◌+◌, String, ◌≡◌, refl, sym, ◌∙◌, ap, subst, Bool, true, false, Option, none, some, List,
  [], ◌∷◌, ◌++◌, inl, inr, arith,
}
use whatsvault.Base.Eq.{◌==◌, ==-refl, nat_eq, string_eq, option_eq, Option-cases, Bool-cases}
use whatsvault.Base.Table.{find, any, any-append}
use whatsvault.Import.Fingerprint.{Bucket}
use whatsvault.Import.Batch.{Line, ImportedMessage, ImportDb, Import, Tools, ImportFresh, has_print}
use whatsvault.Import.Write.{
  Senders, sender_id, message_row, insert_new, by_print, message_for, observe, import_line,
  print_of, import_lines,
}

-- The fingerprint of a line is that of a message.
pub record Printed (t : Tools) (a : Import) (occ : List Bucket) (l : Line)
    (ms : List ImportedMessage) : Type 0 where
  pub bucket : Bucket
  pub fp : String
  pub printed : print_of t a occ l ≡ some (bucket, fp)
  pub there : has_print fp ms ≡ true

abbrev pub AllPrinted : Tools → Import → List Bucket → List Line → List ImportedMessage → Type 0
AllPrinted t a occ [] ms = Unit
AllPrinted t a occ (l ∷ rest) ms =
    (p : Printed t a occ l ms) × AllPrinted t a (p.bucket ∷ occ) rest ms

-- Every fingerprint is kept.
abbrev pub Keeps : List ImportedMessage → List ImportedMessage → Type 0
Keeps ms ms' = (fp : String) → has_print fp ms ≡ true → has_print fp ms' ≡ true

found_any : {A : Type 0} (p : A → Bool) (l : List A) (x : A) → find p l ≡ some x → any p l ≡ true
found_any p [] x h = cc
found_any p (y ∷ l) x h = elim (Bool-cases (p y)) [
  | inl e ↦ ground (arith, e)
  | inr e ↦ ground (arith, e, found_any p l x (ground (arith, e, h)))
]

missing_any : {A : Type 0} (p : A → Bool) (l : List A) → find p l ≡ none → any p l ≡ false
missing_any p [] h = refl
missing_any p (y ∷ l) h = elim (Bool-cases (p y)) [
  | inl e ↦ ground (arith, e)
  | inr e ↦ ground (arith, e, missing_any p l (ground (arith, e, h)))
]

module _ (t : Tools) (a : Import) where
  observe-messages :
      (batch i : String) (p : Option String) (l : Line) (content : String) (db db' : ImportDb)
      → observe batch i p l content db ≡ some db'
      → db'.messages ≡ db.messages
  observe-messages batch i none l content db db' h = cc
  observe-messages batch i (some p) l content db db' h = ground (arith, h)

  insert_new-messages :
      (i : String) (l : Line) (fp : String) (db db' : ImportDb)
      → insert_new t a i l fp db ≡ some db'
      → db'.messages ≡ db.messages ++ message_row t a i l fp ∷ []
  insert_new-messages i l fp db db' h = ground (arith, h)

  message_for-Keeps :
      (i : String) (l : Line) (fp : String) (db : ImportDb) (m : ℕ) (j : String) (db' : ImportDb)
      → message_for t a i l fp db ≡ some (m, j, db')
      → (has_print fp db'.messages ≡ true) × Keeps db.messages db'.messages
  message_for-Keeps i l fp db m j db' h = elim (Option-cases (by_print fp db)) [
    | inr (x, found) ↦
        let same : db'.messages ≡ db.messages = ground (arith, found, h) in
        (
          subst (λ (ms : List ImportedMessage). has_print fp ms ≡ true) (sym same)
              (found_any (λ (y : ImportedMessage). y.import_fingerprint == some fp) db.messages x
                found),
          λ other e. subst (λ (ms : List ImportedMessage). has_print other ms ≡ true) (sym same) e,
        )
    | inl new ↦ elim (Option-cases (insert_new t a i l fp db)) [
      | inl failed_now ↦ ground (arith, new, failed_now, h)
      | inr (db'', done) ↦
          let more = insert_new-messages i l fp db db'' done in
          let same : db'.messages ≡ db''.messages = ground (arith, new, done, h) in
          let row = message_row t a i l fp in
          let joins = λ (x : String).
            any-append (λ (y : ImportedMessage). y.import_fingerprint == some x) db.messages
              (row ∷ []) in
          (
            rw (same, more) (ground (arith, joins fp, ==-refl (some fp))),
            λ other e. rw (same, more) (ground (arith, joins other, e)),
          )
    ]
  ]

  message_for-again :
      (i : String) (l : Line) (fp : String) (db : ImportDb) (m : ℕ) (j : String) (db' : ImportDb)
      → has_print fp db.messages ≡ true
      → message_for t a i l fp db ≡ some (m, j, db')
      → (m ≡ 0) × (db'.messages ≡ db.messages)
  message_for-again i l fp db m j db' there h = elim (Option-cases (by_print fp db)) [
    | inr (x, found) ↦ (ground (arith, found, h), ground (arith, found, h))
    | inl new ↦ ground (
      arith,
      there,
      missing_any (λ (y : ImportedMessage). y.import_fingerprint == some fp) db.messages new,
    )
  ]

  module _ (f : ImportFresh) (senders : Senders) where
    import_line-parts :
        (n : ℕ) (l : Line) (b : Bucket) (fp : String) (db : ImportDb) (m : ℕ) (db' : ImportDb)
        → import_line t a f n senders l b fp db ≡ some (m, db')
        → (j : String) × (mid : ImportDb) × (message_for t a (f.message n) l fp db
            ≡ some (m, j, mid))
          × (db'.messages ≡ mid.messages)
    import_line-parts n l b fp db m db' h =
        elim (Option-cases (message_for t a (f.message n) l fp db)) [
          | inl refused_now ↦ ground (arith, refused_now, h)
          | inr ((more, j, mid), done) ↦
              elim (Option-cases (observe f.batch j (sender_id l.sender senders) l b.content mid)) [
                | inl taken ↦ ground (arith, done, taken, h)
                | inr (last, seen) ↦
                    let kept =
                      observe-messages f.batch j (sender_id l.sender senders) l b.content mid last
                        seen in
                    let same : (more ≡ m) × (last ≡ db') = ground (arith, done, seen, h) in
                    (
                      j,
                      mid,
                      subst (λ (x : ℕ). message_for t a (f.message n) l fp db ≡ some (x, j, mid))
                          same.0 done,
                      sym (ap (λ (x : ImportDb). x.messages) same.1) ∙ kept,
                    )
              ]
        ]

    -- How a round of the loop goes.
    record LineRound (n : ℕ) (occ : List Bucket) (l : Line) (rest : List Line) (db : ImportDb)
        (m : ℕ) (db' : ImportDb) : Type 0 where
      b : Bucket
      fp : String
      printed : print_of t a occ l ≡ some (b, fp)
      more : ℕ
      mid : ImportDb
      line : import_line t a f n senders l b fp db ≡ some (more, mid)
      others : ℕ
      lines : import_lines t a f (suc n) senders (b ∷ occ) rest mid ≡ some (others, db')
      total : m ≡ more + others

    import_lines-LineRound :
        (n : ℕ) (occ : List Bucket) (l : Line) (rest : List Line) (db : ImportDb) (m : ℕ)
        (db' : ImportDb)
        → import_lines t a f n senders occ (l ∷ rest) db ≡ some (m, db')
        → LineRound n occ l rest db m db'
    unfolding import_lines
    import_lines-LineRound n occ l rest db m db' h = elim (Option-cases (print_of t a occ l)) [
      | inl blank ↦ ground (arith, blank, h)
      | inr ((b, fp), printed) ↦ elim (Option-cases (import_line t a f n senders l b fp db)) [
        | inl stopped ↦ ground (arith, printed, stopped, h)
        | inr ((more, mid), line) ↦
            elim (Option-cases (import_lines t a f (suc n) senders (b ∷ occ) rest mid)) [
              | inl stopped ↦ ground (arith, printed, line, stopped, h)
              | inr ((others, last), lines) ↦
                  let same : (m ≡ more + others) × (last ≡ db') =
                    ground (arith, printed, line, lines, h) in
                  record {
                    b = b;
                    fp = fp;
                    printed = printed;
                    more = more;
                    mid = mid;
                    line = line;
                    others = others;
                    lines =
                        subst
                          (λ (x : ImportDb).
                            import_lines t a f (suc n) senders (b ∷ occ) rest mid
                            ≡ some (others, x))
                          same.1 lines;
                    total = same.0;
                  }
            ]
      ]
    ]

    import_line-Keeps :
        (n : ℕ) (l : Line) (b : Bucket) (fp : String) (db : ImportDb) (m : ℕ) (db' : ImportDb)
        → import_line t a f n senders l b fp db ≡ some (m, db')
        → (has_print fp db'.messages ≡ true) × Keeps db.messages db'.messages
    import_line-Keeps n l b fp db m db' h =
        let (j, mid, done, same) = import_line-parts n l b fp db m db' h in
        let kept = message_for-Keeps (f.message n) l fp db m j mid done in
        subst (λ (ms : List ImportedMessage). (has_print fp ms ≡ true) × Keeps db.messages ms)
          (sym same) kept

    pub import_lines-AllPrinted :
        (lines : List Line) (n : ℕ) (occ : List Bucket) (db : ImportDb) (m : ℕ) (db' : ImportDb)
        → import_lines t a f n senders occ lines db ≡ some (m, db')
        → AllPrinted t a occ lines db'.messages × Keeps db.messages db'.messages
    unfolding import_lines
    import_lines-AllPrinted [] n occ db m db' h =
        let same : db ≡ db' = cc in
        (tt, λ fp e. subst (λ (x : ImportDb). has_print fp x.messages ≡ true) same e)
    import_lines-AllPrinted (l ∷ rest) n occ db m db' h =
        let r = import_lines-LineRound n occ l rest db m db' h in
        let (here, kept) = import_line-Keeps n l r.b r.fp db r.more r.mid r.line in
        let (later, kept_later) =
          import_lines-AllPrinted rest (suc n) (r.b ∷ occ) r.mid r.others db' r.lines in
        (
          (
            record { bucket = r.b; fp = r.fp; printed = r.printed; there = kept_later r.fp here },
            later,
          ),
          λ fp e. kept_later fp (kept fp e),
        )

    pub AllPrinted-same :
        (lines : List Line) (n : ℕ) (occ : List Bucket) (db : ImportDb) (m : ℕ) (db' : ImportDb)
        → AllPrinted t a occ lines db.messages
        → import_lines t a f n senders occ lines db ≡ some (m, db')
        → (m ≡ 0) × (db'.messages ≡ db.messages)
    unfolding import_lines
    AllPrinted-same [] n occ db m db' p h = (cc, cc)
    AllPrinted-same (l ∷ rest) n occ db m db' (p, ps) h =
        let r = import_lines-LineRound n occ l rest db m db' h in
        let agrees : (p.bucket ≡ r.b) × (p.fp ≡ r.fp) = ground (arith, p.printed, r.printed) in
        let there = subst (λ (x : String). has_print x db.messages ≡ true) agrees.1 p.there in
        let (j, mid, done, same) = import_line-parts n l r.b r.fp db r.more r.mid r.line in
        let (none_new, kept) = message_for-again (f.message n) l r.fp db r.more j mid there done in
        let ps' = subst (λ (x : Bucket). AllPrinted t a (x ∷ occ) rest db.messages) agrees.0 ps in
        let ps'' = subst (AllPrinted t a (r.b ∷ occ) rest) (sym (same ∙ kept)) ps' in
        let (no_others, kept_later) =
          AllPrinted-same rest (suc n) (r.b ∷ occ) r.mid r.others db' ps'' r.lines in
        (omega (arith, r.total, none_new, no_others), kept_later ∙ same ∙ kept)
