-- ===== src/Ingest/Process/Grows.antt =====
-- What a step of the consumer may do to the ledger and the quarantine of vault.db.
use whatsvault.Base.{ℕ, String, ◌≡◌, Bool, true, false, ◌||◌, List, [], ◌∷◌, ◌++◌, inl, inr, arith}
use whatsvault.Base.Eq.{◌==◌, ==-sound, string_eq, bytes_eq, Bool-cases}
use whatsvault.Base.Table.{any, any-append}
use whatsvault.Base.Bytes.{Bytes}
use whatsvault.Ingest.Payload.{Family}
use whatsvault.Ingest.Db.{DlqRow, IngestEvent, IngestDb}
use whatsvault.Ingest.Process.{Fresh, Stores, event_row}

abbrev pub is_quarantined : Bytes → IngestDb → Bool
is_quarantined body db = any (λ (x : DlqRow). x.envelope == body) db.dlq

abbrev pub has_key : String → IngestDb → Bool
has_key key db = any (λ (x : IngestEvent). x.semantic_event_key == key) db.events

abbrev pub has_id : String → IngestDb → Bool
has_id i db = any (λ (x : IngestEvent). x.id == i) db.events

-- Nothing that the ledger or the quarantine held is gone.
pub record Grows (a b : IngestDb) : Type 0 where
  pub keys : (key : String) → has_key key a ≡ true → has_key key b ≡ true
  pub kept : (body : Bytes) → is_quarantined body a ≡ true → is_quarantined body b ≡ true

pub Grows-refl : (a : IngestDb) → Grows a a
Grows-refl a = record { keys = λ key h. h; kept = λ body h. h }

pub Grows-trans : (a b c : IngestDb) → Grows a b → Grows b c → Grows a c
Grows-trans a b c g h = record {
  keys = λ key x. h.keys key (g.keys key x);
  kept = λ body x. h.kept body (g.kept body x);
}

-- No transaction is pending.
abbrev pub IsQuiet : Stores → Type 0
IsQuiet s = s.vault.work ≡ s.vault.saved

-- What a call does to the two databases, where `Drawn` are the identifiers that it may give to rows of
-- the ledger.
pub record IsRound (Drawn : String → Type 0) (s s' : Stores) : Type 0 where
  pub quiet : IsQuiet s'
  pub grows : Grows s.vault.saved s'.vault.saved
  pub ids :
      (i : String) → ¬ Drawn i → has_id i s.vault.saved ≡ false → has_id i s'.vault.saved ≡ false

pub IsRound-refl : (Drawn : String → Type 0) (s : Stores) → IsQuiet s → IsRound Drawn s s
IsRound-refl Drawn s q = record { quiet = q; grows = Grows-refl s.vault.saved; ids = λ i n h. h }

pub IsRound-trans :
    (Drawn Drawn' Both : String → Type 0) (s t u : Stores)
    → ((i : String) → Drawn i → Both i)
    → ((i : String) → Drawn' i → Both i)
    → IsRound Drawn s t
    → IsRound Drawn' t u
    → IsRound Both s u
IsRound-trans Drawn Drawn' Both s t u f g x y = record {
  quiet = y.quiet;
  grows = Grows-trans s.vault.saved t.vault.saved u.vault.saved x.grows y.grows;
  ids = λ i n h. y.ids i (λ d. n (g i d)) (x.ids i (λ d. n (f i d)) h);
}

pub IsRound-weaken :
    (Drawn Both : String → Type 0) (s t : Stores)
    → ((i : String) → Drawn i → Both i)
    → IsRound Drawn s t
    → IsRound Both s t
IsRound-weaken Drawn Both s t f x = record {
  quiet = x.quiet;
  grows = x.grows;
  ids = λ i n h. x.ids i (λ d. n (f i d)) h;
}

-- A row that INSERT OR IGNORE meets, under an identifier that no row has, has the key.
pub seen_by_key :
    (i key : String) (l : List IngestEvent)
    → any (λ (x : IngestEvent). x.id == i || x.semantic_event_key == key) l ≡ true
    → any (λ (x : IngestEvent). x.id == i) l ≡ false
    → any (λ (x : IngestEvent). x.semantic_event_key == key) l ≡ true
seen_by_key i key [] h n = cc
seen_by_key i key (x ∷ l) h n = ground (arith, seen_by_key i key l)

pub key_seen :
    (i key : String) (l : List IngestEvent)
    → any (λ (x : IngestEvent). x.semantic_event_key == key) l ≡ true
    → any (λ (x : IngestEvent). x.id == i || x.semantic_event_key == key) l ≡ true
key_seen i key [] h = cc
key_seen i key (x ∷ l) h = ground (arith, key_seen i key l)

module _ (i key : String) (family : Family) (now : ℕ) (db db' : IngestDb)
    (e : db'.events ≡ db.events ++ event_row i key family now ∷ []) where
  pub key_added : (key' : String) → has_key key' db' ≡ (has_key key' db || key == key')
  key_added key' = ground (
    arith,
    e,
    any-append (λ (x : IngestEvent). x.semantic_event_key == key') db.events
        (event_row i key family now ∷ []),
  )

  pub id_added : (j : String) → has_id j db' ≡ (has_id j db || i == j)
  id_added j = ground (
    arith,
    e,
    any-append (λ (x : IngestEvent). x.id == j) db.events (event_row i key family now ∷ []),
  )

abbrev pub OneDraw : Fresh → String → Type 0
OneDraw f i = f.event ≡ i

abbrev pub Draws : (ℕ → Fresh) → String → Type 0
Draws fresh i = (n : ℕ) × ((fresh n).event ≡ i)

pub not_drawn : (a b : String) → ¬ (a ≡ b) → (a == b) ≡ false
not_drawn a b n = elim (Bool-cases (a == b)) [ inl e ↦ absurd (n (==-sound a b e)) | inr e ↦ e ]
