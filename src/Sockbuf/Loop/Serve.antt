-- ===== src/Sockbuf/Loop/Serve.antt =====
-- What `sockbuf_update_all` in c-cpp/onethread/sockbuf.c does about one entry with something to
-- report, described by what can be the matter with a sockbuf.
use examples.Common.{
  ℕ, ◌≡◌, refl, sym, ap, Bool, true, false, not, ◌||◌, List, [], ◌∷◌, ◌++◌, if◌then◌else◌,
}
use examples.Sockbuf.State.{Flags, PollBits, Pollfd, Sockbuf}
use examples.Sockbuf.Run.{Run, Cmd, ok, fault, out_of_fuel, pure, fetch, and_then, ◌>>=◌, ◌>>◌}
use examples.Sockbuf.Env.{Env}
use examples.Sockbuf.Events.{sockbuf_got_eof}
use examples.Sockbuf.Io.{
  sockbuf_got_writable_client, sockbuf_got_readable_server, sockbuf_got_writable,
  sockbuf_got_readable,
}
use examples.Sockbuf.Loop.{any_revents, dispatch}
use mathlib.Core.Path.{fun_ext}

-- What can be the matter with a sockbuf.
pub data Matter : Type 0 where
  connected : Matter
  writable : Matter
  connection : Matter
  readable : Matter
  ended : Matter

abbrev pub when : Bool → Matter → List Matter
when c m = if c then m ∷ [] else []

-- Writing comes first, then reading, and the end last. A sockbuf that is still connecting is
-- connected once it can be written to, and one that listens has a connection once it can be read.
abbrev pub matters : Flags → PollBits → List Matter
matters f r =
    when r.pollout (if f.connecting then connected else writable)
    ++ (when r.pollin (if f.server then connection else readable)
        ++ when (r.pollhup || r.pollnval || r.pollerr) ended)

abbrev pub see_to : Env → ℕ → Matter → Cmd (Unit {0})
see_to env idx connected = sockbuf_got_writable_client env idx
see_to env idx writable = sockbuf_got_writable env idx
see_to env idx connection = sockbuf_got_readable_server env idx
see_to env idx readable = sockbuf_got_readable env idx
see_to env idx ended = sockbuf_got_eof env idx 0

unfoldable pub see_to_all : Env → ℕ → List Matter → Cmd (Unit {0})
see_to_all env idx [] = pure tt
see_to_all env idx (m ∷ ms) = see_to env idx m >> see_to_all env idx ms

-- All that is the matter with one sockbuf, by the flags that it has before the first of them.
unfoldable pub serve : Env → ℕ × PollBits → Cmd (Unit {0})
serve env (idx, r) = fetch idx >>= λ b. see_to_all env idx (matters b.flags r)

unfoldable pub serve_all : Env → List (ℕ × PollBits) → Cmd (Unit {0})
serve_all env [] = pure tt
serve_all env (e ∷ es) = serve env e >> serve_all env es

-- The sockbufs whose entries have something to report, in the order of the poll set.
unfoldable pub ready_entries : List ℕ → List Pollfd → List (ℕ × PollBits)
ready_entries [] ps = []
ready_entries (x ∷ xs) [] = []
ready_entries (x ∷ xs) (p ∷ ps) =
    let rest = ready_entries xs ps in if any_revents p.revents then (x, p.revents) ∷ rest else rest

and_then-pure : (r : Run (Unit {0})) → and_then r (λ _. pure tt) ≡ r
and_then-pure (ok tt s) = refl
and_then-pure fault = refl
and_then-pure out_of_fuel = refl

>>_pure : (m : Cmd (Unit {0})) → (m >> pure tt) ≡ m
>>_pure m = fun_ext (λ s. and_then-pure (m s))

pub dispatch-serve : (env : Env) (idx : ℕ) (r : PollBits) → dispatch env idx r ≡ serve env (idx, r)
unfolding dispatch serve see_to_all
dispatch-serve env idx r = ap (λ (k : Sockbuf → Cmd (Unit {0})). fetch idx >>= k) (fun_ext body)
  where
    last :
        (c : Bool)
        → (if c then sockbuf_got_eof env idx 0 else pure tt) ≡ see_to_all env idx (when c ended)
    last true = sym (>>_pure (sockbuf_got_eof env idx 0))
    last false = refl

    reading :
        (c server : Bool) (ms : List Matter) (m : Cmd (Unit {0}))
        → m ≡ see_to_all env idx ms
        → ((if not c
              then pure tt
              else if server
              then sockbuf_got_readable_server env idx
              else sockbuf_got_readable env idx)
            >> m)
          ≡ see_to_all env idx (when c (if server then connection else readable) ++ ms)
    reading false server ms m h = h
    reading true true ms m h = ap (λ k. sockbuf_got_readable_server env idx >> k) h
    reading true false ms m h = ap (λ k. sockbuf_got_readable env idx >> k) h

    writing :
        (c connecting : Bool) (ms : List Matter) (m : Cmd (Unit {0}))
        → m ≡ see_to_all env idx ms
        → ((if not c
              then pure tt
              else if connecting
              then sockbuf_got_writable_client env idx
              else sockbuf_got_writable env idx)
            >> m)
          ≡ see_to_all env idx (when c (if connecting then connected else writable) ++ ms)
    writing false connecting ms m h = h
    writing true true ms m h = ap (λ k. sockbuf_got_writable_client env idx >> k) h
    writing true false ms m h = ap (λ k. sockbuf_got_writable env idx >> k) h

    body :
        (b : Sockbuf)
        → ((if not r.pollout
              then pure tt
              else if b.flags.connecting
              then sockbuf_got_writable_client env idx
              else sockbuf_got_writable env idx)
            >> ((if not r.pollin
                  then pure tt
                  else if b.flags.server
                  then sockbuf_got_readable_server env idx
                  else sockbuf_got_readable env idx)
                >> (if r.pollhup || r.pollnval || r.pollerr
                    then sockbuf_got_eof env idx 0
                    else pure tt)))
          ≡ see_to_all env idx (matters b.flags r)
    body b =
        writing r.pollout b.flags.connecting _ _
          (reading r.pollin b.flags.server _ _ (last (r.pollhup || r.pollnval || r.pollerr)))
