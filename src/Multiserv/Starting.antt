-- ===== src/Multiserv/Starting.antt =====
-- The set-up of c-cpp/onethread/multiserv.c.
use examples.Common.{
  ℕ, ◌≡◌, ◌∙◌, refl, inl, inr, true, false, List, [], ◌∷◌, ℤ, is_nonneg, Bool-cases,
}
use examples.Sockbuf.State.{Ptr, State}
use examples.Sockbuf.Run.{ok}
use examples.Sockbuf.Env.{Env}
use examples.Sockbuf.Valid.{is_valid_at-Holds, Holds-isvalid}
use examples.Sockbuf.Table.{is_valid_at}
use examples.Sockbuf.Table.Paired.{Distinct, IsAbsent}
use examples.Sockbuf.Table.Placed.{Kept, new_set_sock-Placed}
use examples.Sockbuf.Table.PollSet.{PollInv}
use examples.Socket.Create.{Net, NetState, socket_create}
use examples.Multiserv.{
  Service, servone, servtwo, servthr, server_flags, request_of, start_service, start_all, main,
}
use examples.Multiserv.Serving.{Served, set_handler-Served}

-- A service whose socket was made gets a sockbuf of its own.
start_service-Served :
    (env : Env) (cdata : Ptr) (k : Service) (sock : ℤ) (s : State)
    → is_nonneg sock ≡ true
    → PollInv s
    → (idx : ℕ) × (s' : State) × (start_service env cdata k sock s ≡ ok true s')
      × (is_valid_at s idx ≡ false)
      × (served : Served s' idx k cdata) × (served.sockbuf.sock ≡ sock)
      × Kept s s'
      × PollInv s'
unfolding start_service
start_service-Served env cdata k sock s made inv =
    let put = new_set_sock-Placed env s sock server_flags refl refl inv in
    let (s', set_run, served, same, kept, inv') =
      set_handler-Served s put.state put.idx put.after k cdata put.holds put.inv put.no_filters
        put.unused put.kept in
    (
      put.idx,
      s',
      rw (put.created, made, put.returns, set_run) refl,
      put.unused,
      served,
      same ∙ put.sock_is,
      kept,
      inv',
    )

-- socket_create gives a descriptor for each of the services, one after the other.
abbrev pub AllCreated : Net → List Service → NetState → Type 0
AllCreated net [] ns = Unit {0}
AllCreated net (k ∷ ks) ns =
    (is_nonneg (socket_create net (request_of k) ns).0 ≡ true)
    × AllCreated net ks (socket_create net (request_of k) ns).1

-- The services stand at the indices, each on the descriptor that was made for it.
abbrev pub AllServed : Net → State → (cdata : Ptr) → List Service → List ℕ → NetState → Type 0
AllServed net s cdata [] [] ns = Unit {0}
AllServed net s cdata [] (i ∷ is) ns = ⊥
AllServed net s cdata (k ∷ ks) [] ns = ⊥
AllServed net s cdata (k ∷ ks) (i ∷ is) ns =
    ((served : Served s i k cdata) × (served.sockbuf.sock
        ≡ (socket_create net (request_of k) ns).0))
    × AllServed net s cdata ks is (socket_create net (request_of k) ns).1

abbrev AllUnused : State → List ℕ → Type 0
AllUnused s [] = Unit {0}
AllUnused s (i ∷ is) = (is_valid_at s i ≡ false) × AllUnused s is

AllUnused-Kept : (s s' : State) (is : List ℕ) → Kept s s' → AllUnused s' is → AllUnused s is
AllUnused-Kept s s' [] kept u = tt
AllUnused-Kept s s' (i ∷ is) kept (free, u) = (
  elim (Bool-cases (is_valid_at s i)) [
    | inl used ↦ let (b, h) = Holds-isvalid s i used in absurd (cc (is_valid_at-Holds (kept i b h)))
    | inr unused ↦ unused
  ],
  AllUnused-Kept s s' is kept u,
)

IsAbsent-unused :
    (s : State) (i : ℕ) (is : List ℕ) → is_valid_at s i ≡ true → AllUnused s is → IsAbsent i is
IsAbsent-unused s i [] used u = tt
IsAbsent-unused s i (j ∷ is) used (free, u) = (λ e. cc (used, free), IsAbsent-unused s i is used u)

Served-Kept :
    (s s' : State) (i : ℕ) (k : Service) (cdata : Ptr) (sock : ℤ)
    → Kept s s'
    → (served : Served s i k cdata) × (served.sockbuf.sock ≡ sock)
    → (served : Served s' i k cdata) × (served.sockbuf.sock ≡ sock)
Served-Kept s s' i k cdata sock kept (served, e) = (
  record {
    sockbuf = served.sockbuf;
    holds = kept i served.sockbuf served.holds;
    handler_is = served.handler_is;
    data_is = served.data_is;
    bare = served.bare;
  },
  e,
)

start_all-AllServed :
    (env : Env) (net : Net) (cdata : Ptr) (ks : List Service) (ns : NetState) (s : State)
    → AllCreated net ks ns
    → PollInv s
    → (is : List ℕ) × (s' : State) × (start_all env net cdata ks ns s ≡ ok true s')
      × Distinct is
      × AllUnused s is
      × AllServed net s' cdata ks is ns
      × Kept s s'
      × PollInv s'
unfolding start_all
start_all-AllServed env net cdata [] ns s all inv = ([], s, refl, tt, tt, tt, λ j d h. h, inv)
start_all-AllServed env net cdata (k ∷ ks) ns s (made, all) inv =
    let r = socket_create net (request_of k) ns in
    let (i, s₁, started, unused, served, sock, kept, inv₁) =
      start_service-Served env cdata k r.0 s made inv in
    let (is, s₂, ran, distinct, free, rest, kept', inv₂) =
      start_all-AllServed env net cdata ks r.1 s₁ all inv₁ in
    (
      i ∷ is,
      s₂,
      rw (started, ran) refl,
      (IsAbsent-unused s₁ i is (is_valid_at-Holds served.holds) free, distinct),
      (unused, AllUnused-Kept s s₁ is kept free),
      (Served-Kept s₁ s₂ i k cdata r.0 kept' (served, sock), rest),
      λ j d h. kept' j d (kept j d h),
      inv₂,
    )

-- Where socket_create gives a descriptor each time, `main` comes to its loop with the three
-- services at three different indices, each live on its own descriptor with its own handler and the
-- shared data, and with a right poll set.
pub main-AllServed :
    (env : Env) (net : Net) (cdata : Ptr) (ns : NetState) (s : State)
    → AllCreated net (servone ∷ servtwo ∷ servthr ∷ []) ns
    → PollInv s
    → (is : List ℕ) × (s' : State) × (main env net cdata ns s ≡ ok true s')
      × Distinct is
      × AllServed net s' cdata (servone ∷ servtwo ∷ servthr ∷ []) is ns
      × PollInv s'
unfolding main
main-AllServed env net cdata ns s all inv =
    let (is, s', ran, distinct, free, served, kept, inv') =
      start_all-AllServed env net cdata (servone ∷ servtwo ∷ servthr ∷ []) ns s all inv in
    (is, s', ran, distinct, served, inv')
