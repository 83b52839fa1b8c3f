-- ===== src/Sockbuf/Table/Placed.antt =====
-- A fresh sockbuf of c-cpp/onethread/sockbuf.c that is given a descriptor at once, as its users do.
use examples.Common.{
  ℕ, ◌≡◌, ◌≢◌, ◌∙◌, ap, false, [], ℤ, pos, arith, get_elem?, set-get_elem?, get_elem?-set_ne,
}
use examples.Sockbuf.State.{Flags, Sockbuf, State}
use examples.Sockbuf.Run.{ok}
use examples.Sockbuf.Env.{Env}
use examples.Sockbuf.Valid.{Holds, is_valid_at-Holds}
use examples.Sockbuf.Table.{
  fresh_sockbuf, is_valid_at, set_sock_flags, sockbuf_new, sockbuf_set_sock,
}
use examples.Sockbuf.Table.PollSet.{PollInv}
use examples.Sockbuf.Table.New.{new-fresh}
use examples.Sockbuf.Table.SetSock.{set_sock-SockSet}

-- Every live sockbuf is as it was.
abbrev pub Kept : State → State → Type 0
Kept s s' = (j : ℕ) (d : Sockbuf) → Holds s j d → Holds s' j d

-- The new sockbuf has the descriptor and no filters; `between` is the state between the two calls.
pub record Placed (env : Env) (s : State) (sock : ℤ) (flags : Flags) : Type 0 where
  pub idx : ℕ
  pub ret : ℤ
  pub between : State
  pub state : State
  pub after : Sockbuf
  pub created : sockbuf_new s ≡ ok idx between
  pub returns : sockbuf_set_sock env (pos idx) sock flags between ≡ ok ret state
  pub unused : is_valid_at s idx ≡ false
  pub holds : Holds state idx after
  pub sock_is : after.sock ≡ sock
  pub flags_are : after.flags ≡ set_sock_flags fresh_sockbuf.flags flags
  pub no_filters : after.filters ≡ []
  pub kept : Kept s state
  pub inv : PollInv state

-- An index that was not live before is apart from those that were.
pub unused-ne : (s : State) (i j : ℕ) {d : Sockbuf} → is_valid_at s i ≡ false → Holds s j d → i ≢ j
unused-ne s i j unused h e = cc (unused, is_valid_at-Holds h)

pub new_set_sock-Placed :
    (env : Env) (s : State) (sock : ℤ) (flags : Flags)
    → flags.avail ≡ false
    → flags.deleted ≡ false
    → PollInv s
    → Placed env s sock flags
new_set_sock-Placed env s sock flags used there inv =
    let (n, s₁, created, unused, fresh, kept, inv₁) = new-fresh s inv in
    let r = set_sock-SockSet env s₁ n fresh_sockbuf sock flags fresh inv₁ used in
    record {
      idx = n;
      ret = r.ret;
      between = s₁;
      state = r.state;
      after = r.after;
      created = created;
      returns = r.returns;
      unused = unused;
      holds = record {
        at = rw r.sockbufs_are (set-get_elem? s₁.sockbufs n r.after fresh.at);
        live = rw r.flags_are (ground arith);
      };
      sock_is = r.sock_is;
      flags_are = r.flags_are;
      no_filters = r.filters_are;
      kept = λ j d h.
          let was = kept j d h in
          record {
            at =
                ap (λ bs. get_elem? bs j) r.sockbufs_are
                ∙ get_elem?-set_ne s₁.sockbufs n j r.after (unused-ne s n j unused h)
                ∙ was.at;
            live = was.live;
          };
      inv = r.inv;
    }
