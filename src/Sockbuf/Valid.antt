-- ===== src/Sockbuf/Valid.antt =====
-- Runs on an index that holds a live sockbuf, for the proofs about c-cpp/onethread/sockbuf.c.
use examples.Common.{ℕ, ◌≡◌, refl, true, Option, none, some, pos, get_elem?}
use examples.Sockbuf.State.{Sockbuf, State}
use examples.Sockbuf.Run.{Cmd}
use examples.Sockbuf.Table.{is_live, is_valid_at, guard_valid, sockbuf_isvalid}

-- `idx` holds the live sockbuf `b`.
pub record Holds (s : State) (idx : ℕ) (b : Sockbuf) : Type 0 where
  pub at : get_elem? s.sockbufs idx ≡ some b
  pub live : is_live b ≡ true

pub is_valid_at-Holds :
    {s : State} {idx : ℕ} {b : Sockbuf} → Holds s idx b → is_valid_at s idx ≡ true
is_valid_at-Holds h = rw (h.at, is_valid_at) h.live

pub guard_valid-Holds :
    {A : Type 0} {s : State} {idx : ℕ} {b : Sockbuf} (refusal : A) (body : ℕ → Cmd A)
    → Holds s idx b
    → guard_valid refusal (pos idx) body s ≡ body idx s
guard_valid-Holds refusal body h = rw (is_valid_at-Holds h)

pub Holds-isvalid :
    (s : State) (idx : ℕ) → sockbuf_isvalid s (pos idx) ≡ true → (b : Sockbuf) × Holds s idx b
Holds-isvalid s idx h = go (get_elem? s.sockbufs idx) refl
  where
    go : (o : Option Sockbuf) → get_elem? s.sockbufs idx ≡ o → (b : Sockbuf) × Holds s idx b
    go none e = cc (rw (e, is_valid_at) at h)
    go (some b) e = (b, record { at = e; live = rw (e, is_valid_at) at h })
