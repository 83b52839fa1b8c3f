-- ===== src/Sockbuf/Run.antt =====
-- The commands of the model: a C function that reads and changes the file-scope data of
-- c-cpp/onethread/sockbuf.c, and may fault where C has undefined behaviour.
use examples.Common.{ℕ, Option, none, some, get_elem?, set, modify_at}
use examples.Sockbuf.State.{Sockbuf, State}

-- `fault` is undefined behaviour, such as a call through NULL. `out_of_fuel` is the model's alone.
pub data Run (A : Type 0) : Type 0 where
  ok : A → State → Run A
  fault : Run A
  out_of_fuel : Run A

abbrev pub Cmd : Type 0 → Type 0
Cmd A = State → Run A

abbrev pub pure : {A : Type 0} → A → Cmd A
pure = ok

module _ {A B : Type 0} where
  abbrev pub and_then : Run A → (A → Cmd B) → Run B
  and_then (ok a s) k = k a s
  and_then fault k = fault
  and_then out_of_fuel k = out_of_fuel

  infixl 5 ◌>>=◌ ◌>>◌
  abbrev pub ◌>>=◌ : Cmd A → (A → Cmd B) → Cmd B
  m >>= k = λ s. and_then (m s) k

  abbrev pub ◌>>◌ : Cmd A → Cmd B → Cmd B
  m >> n = m >>= λ _. n

abbrev pub get_state : Cmd State
get_state s = ok s s

abbrev pub update : (State → State) → Cmd (Unit {0})
update f s = ok tt (f s)

abbrev pub or_fault : {A : Type 0} → Option A → Cmd A
or_fault none s = fault
or_fault (some a) s = ok a s

-- `sockbufs[idx]`, a fault outside the array.
abbrev pub fetch : ℕ → Cmd Sockbuf
fetch idx s = or_fault (get_elem? s.sockbufs idx) s

-- `sockbufs[idx] = b`
abbrev pub store : ℕ → Sockbuf → Cmd (Unit {0})
store idx b s = ok tt (record s { sockbufs = set s.sockbufs idx b })

abbrev pub modify_sockbuf : (Sockbuf → Sockbuf) → ℕ → Cmd (Unit {0})
modify_sockbuf f idx s = ok tt (record s { sockbufs = modify_at f idx s.sockbufs })
