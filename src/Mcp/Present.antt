-- ===== src/Mcp/Present.antt =====
-- src/whatsvault/mcp/present.py: the form in which rows leave the boundary.
use Prim.Native.Char.{Char}
use whatsvault.Base.{ℕ, zero, suc, ◌-◌, ◌≤◌, ◌+◌, String, ◌≡◌, Bool, Option, none, some, arith}
use whatsvault.Base.Int.{ℤ}
use whatsvault.Base.Eq.{if◌then◌else◌, ◌==◌, string_eq}

-- What the module takes from Python: `str.isdigit` of one character, and the hexadecimal SHA-256 of
-- the UTF-8 of a text.
pub record Python : Type 0 where
  pub isdigit : Char → Bool
  pub hexdigest : String → String

abbrev pub digits : (Char → Bool) → String → String
digits isdigit String.[] = String.[]
digits isdigit (String.◌∷◌ c s) =
    let rest = digits isdigit s in if isdigit c then String.◌∷◌ c rest else rest

abbrev pub size : String → ℕ
size String.[] = 0
size (String.◌∷◌ c s) = suc (size s)

abbrev pub skip : ℕ → String → String
skip zero s = s
skip (suc n) String.[] = String.[]
skip (suc n) (String.◌∷◌ c s) = skip n s

abbrev pub first : ℕ → String → String
first zero s = String.[]
first (suc n) String.[] = String.[]
first (suc n) (String.◌∷◌ c s) = String.◌∷◌ c (first n s)

abbrev pub append : String → String → String
append String.[] t = t
append (String.◌∷◌ c s) t = String.◌∷◌ c (append s t)

-- `digits[-4:] if len(digits) >= 4 else digits`
abbrev pub last_four : String → String
last_four s = skip (size s - 4) s

-- `mask_wa_id`
unfoldable pub mask_wa_id : Python → Option String → Option String
mask_wa_id py none = none
mask_wa_id py (some wa_id) =
    if wa_id == "" then none else some (append "••••" (last_four (digits py.isdigit wa_id)))

-- `opaque_ref`
unfoldable pub opaque_ref : Python → Option String → Option String
opaque_ref py none = none
opaque_ref py (some value) =
    if value == "" then none else some (append "wref_" (first 16 (py.hexdigest value)))

-- What `untrusted` wraps.
pub data Untrusted : Type 0 where
  untrusted : String → Untrusted

abbrev pub wrap : Option String → Option Untrusted
wrap none = none
wrap (some text) = some (untrusted text)

pub record Contact : Type 0 where
  pub id : String
  pub wa_id : Option String
  pub display_name : Option String
  pub push_name : Option String

pub record ContactRef : Type 0 where
  pub contact_id : String
  pub display_name : Option Untrusted
  pub push_name : Option Untrusted
  pub wa_tail : Option String

abbrev pub contact_ref : Python → Option Contact → Option ContactRef
contact_ref py none = none
contact_ref py (some c) = some (record {
  contact_id = c.id;
  display_name = wrap c.display_name;
  push_name = wrap c.push_name;
  wa_tail = mask_wa_id py c.wa_id;
})

-- A row of vault.messages, as far as the reads use it.
pub record Row : Type 0 where
  pub id : String
  pub conversation_id : String
  pub sender_contact_id : Option String
  pub direction : String
  pub ts_lower_ms : ℤ
  pub ts_upper_ms_exclusive : ℤ
  pub ts_precision : String
  pub delivery_rank : ℕ
  pub reply_to_wamid : Option String
  pub text_original : Option String
  pub wamid : Option String

pub record View : Type 0 where
  pub message_id : String
  pub conversation_id : String
  pub direction : String
  pub ts_lower_ms : ℤ
  pub ts_upper_ms_exclusive : ℤ
  pub ts_precision : String
  pub delivery_rank : ℕ
  pub reply_to_ref : Option String
  pub body : Option Untrusted
  pub contact : Option ContactRef

-- `message_view`
unfoldable pub message_view : Python → Row → Option Contact → View
message_view py m contact = record {
  message_id = m.id;
  conversation_id = m.conversation_id;
  direction = m.direction;
  ts_lower_ms = m.ts_lower_ms;
  ts_upper_ms_exclusive = m.ts_upper_ms_exclusive;
  ts_precision = m.ts_precision;
  delivery_rank = m.delivery_rank;
  reply_to_ref = opaque_ref py m.reply_to_wamid;
  body = wrap m.text_original;
  contact = contact_ref py contact;
}

size-skip : (n : ℕ) (s : String) → size (skip n s) ≡ size s - n
size-skip zero s = omega arith
size-skip (suc n) String.[] = omega arith
size-skip (suc n) (String.◌∷◌ c s) = omega (arith, size-skip n s)

size-append : (s t : String) → size (append s t) ≡ size s + size t
size-append String.[] t = omega arith
size-append (String.◌∷◌ c s) t = omega (arith, size-append s t)

size-digits : (isdigit : Char → Bool) (s : String) → size (digits isdigit s) ≤ size s
size-digits isdigit String.[] = omega arith
size-digits isdigit (String.◌∷◌ c s) = ground (arith, size-digits isdigit s)

-- Whatever the number, its mask has no more than eight characters, the four bullets included.
pub size-mask_wa_id :
    (py : Python) (wa_id : Option String) (masked : String)
    → mask_wa_id py wa_id ≡ some masked
    → size masked ≤ 8
unfolding mask_wa_id
size-mask_wa_id py none masked h = cc
size-mask_wa_id py (some w) masked h = ground (
  arith,
  size-append "••••" (last_four (digits py.isdigit w)),
  size-skip (size (digits py.isdigit w) - 4) (digits py.isdigit w),
)
