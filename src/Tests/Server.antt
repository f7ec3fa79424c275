-- ===== src/Tests/Server.antt =====
-- A server without faults whose connection is the tables themselves, with texts compared byte by
-- byte, whole prices, and a digest that is the text cut or filled to 32 bytes.
use ticket_ist.Prelude.{
  ℕ, zero, suc, ◌≡◌, refl, ◌⊎◌, inl, inr, Bool, true, false, Option, none, some, [], ◌∷◌, Bytes,
  length, ap,
}
use ticket_ist.Floats.{whole_prices}
use ticket_ist.Platform.{Platform}
use ticket_ist.Database.{Sql}
use ticket_ist.Database.Laws.{SqlLaws, IsReliable}
use ticket_ist.Database.Schema.{Tables}

abbrev pub outcome : Tables ℕ → Option (Tables ℕ) → Bool × Tables ℕ
outcome t none = (false, t)
outcome t (some t') = (true, t')

abbrev pub memory : Sql ℕ
memory = record {
  Conn = Tables ℕ;
  tables = λ t. t;
  is_valid = λ t. true;
  collate = λ s. s;
  select = λ A q t. (some (q t), t);
  execute = λ u t. outcome t (u t);
}

outcome_cases :
    (t : Tables ℕ) (r : Option (Tables ℕ))
    → (((outcome t r).0 ≡ false) × ((outcome t r).1 ≡ t))
      ⊎ (((outcome t r).0 ≡ true) × (r ≡ some (outcome t r).1))
outcome_cases t none = inl (refl, refl)
outcome_cases t (some t') = inr (refl, refl)

pub memory-SqlLaws : SqlLaws memory
memory-SqlLaws = record {
  select_keeps = λ A q c. refl;
  select_answers = λ A q c. inr refl;
  execute_answers = λ u c. outcome_cases c (u c);
}

pub memory-IsReliable : IsReliable memory
memory-IsReliable = record {
  laws = memory-SqlLaws;
  always_valid = λ c. refl;
  selects = λ A q c. refl;
  executes = λ u c t h. rw h refl;
}

abbrev pub fill : ℕ → Bytes → Bytes
fill zero s = []
fill (suc k) [] = 0 ∷ fill k []
fill (suc k) (c ∷ s) = c ∷ fill k s

pub length-fill : (k : ℕ) (s : Bytes) → length (fill k s) ≡ k
length-fill zero s = refl
length-fill (suc k) [] = ap suc (length-fill k [])
length-fill (suc k) (c ∷ s) = ap suc (length-fill k s)

abbrev pub local : Platform
local = record { floats = whole_prices; sql = memory; digest = fill 32 }
