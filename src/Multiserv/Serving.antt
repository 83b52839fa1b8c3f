-- ===== src/Multiserv/Serving.antt =====
-- A service of c-cpp/onethread/multiserv.c and the clients that it accepts.
use examples.Common.{
  ℕ, ◌≡◌, ◌∙◌, refl, true, false, Option, some, [], Bytes, pos, is_nonneg, set-get_elem?,
  get_elem?-set_ne, modify_at-set,
}
use examples.Sockbuf.State.{Ptr, Sockbuf, State}
use examples.Sockbuf.Run.{ok, pure, ◌>>◌}
use examples.Sockbuf.Env.{Os, Filter, Handler}
use examples.Sockbuf.Valid.{Holds, is_valid_at-Holds}
use examples.Sockbuf.Table.{is_valid_at}
use examples.Sockbuf.Table.Placed.{Kept, unused-ne}
use examples.Sockbuf.Table.PollSet.{PollInv, with_sockbuf}
use examples.Sockbuf.Access.{sockbuf_set_handler}
use examples.Sockbuf.Events.{call_handler}
use examples.Sockbuf.Events.Newclient.{with_sockbuf-PollInv}
use examples.Sockbuf.Io.{sockbuf_got_readable_server}
use examples.Sockbuf.Io.Accept.{got_readable_server-Accepted}
use examples.Socket.{accepted_name}
use examples.Multiserv.{
  Service, servone, servtwo, servthr, handler_of, serv_on_connect, serv_handler, handler_at,
  program,
}

-- A live sockbuf without filters, with the handler of the service and the shared data.
pub record Served (s : State) (idx : ℕ) (k : Service) (cdata : Ptr) : Type 0 where
  pub sockbuf : Sockbuf
  pub holds : Holds s idx sockbuf
  pub handler_is : sockbuf.handler ≡ some (handler_of k)
  pub data_is : sockbuf.client_data ≡ cdata
  pub bare : sockbuf.filters ≡ []

abbrev handled : Sockbuf → Service → Ptr → Sockbuf
handled b k cdata = record b { handler = some (handler_of k); client_data = cdata }

-- A sockbuf that was not live before gets a handler.
pub set_handler-Served :
    (s₀ s : State) (idx : ℕ) (b : Sockbuf) (k : Service) (cdata : Ptr)
    → Holds s idx b
    → PollInv s
    → b.filters ≡ []
    → is_valid_at s₀ idx ≡ false
    → Kept s₀ s
    → (s' : State) × (sockbuf_set_handler (pos idx) (some (handler_of k)) cdata s ≡ ok (pos 0) s')
      × (served : Served s' idx k cdata) × (served.sockbuf.sock ≡ b.sock)
      × Kept s₀ s'
      × PollInv s'
unfolding sockbuf_set_handler
set_handler-Served s₀ s idx b k cdata h inv bare unused kept =
    let c = handled b k cdata in
    let at = set-get_elem? s.sockbufs idx c h.at in
    let put : State = with_sockbuf s idx c s.clock in
    (
      put,
      rw
          (
            is_valid_at-Holds h,
            modify_at-set
                (λ (b : Sockbuf). record b { handler = some (handler_of k); client_data = cdata })
                s.sockbufs idx h.at,
          )
          refl,
      record {
        sockbuf = c;
        holds = record { at = at; live = h.live };
        handler_is = refl;
        data_is = refl;
        bare = bare;
      },
      refl,
      λ j d hj.
          let was = kept j d hj in
          record {
            at = get_elem?-set_ne s.sockbufs idx j c (unused-ne s₀ idx j unused hj) ∙ was.at;
            live = was.live;
          },
      with_sockbuf-PollInv s idx b c s.clock h.at refl refl inv,
    )

-- The handler of a service gives itself to the client.
told :
    (os : Os) (filter : Ptr → Filter) (others : Ptr → Handler) (k : Service) (b : Sockbuf)
    (idx newidx : ℕ) (ip : Option Bytes) (port : ℕ) (s s' : State)
    → b.handler ≡ some (handler_of k)
    → sockbuf_set_handler (pos newidx) (some (handler_of k)) b.client_data s ≡ ok (pos 0) s'
    → (call_handler
            (program os filter others)
            (λ h. h.on_newclient)
            (λ f. f b.client_data idx newidx ip port)
            b
          >> pure tt)
        s
      ≡ ok tt s'
unfolding serv_on_connect handler_at serv_handler
told os filter others servone b idx newidx ip port s s' e run = rw e (rw run refl)
told os filter others servtwo b idx newidx ip port s s' e run = rw e (rw run refl)
told os filter others servthr b idx newidx ip port s s' e run = rw e (rw run refl)

-- Where a service's socket is readable and a connection is there, the loop ends with a new live
-- sockbuf of the same service and data; all others, the service's own among them, are as they were,
-- and the poll set is right.
pub accept-Served :
    (os : Os) (filter : Ptr → Filter) (others : Ptr → Handler) (s : State) (idx : ℕ) (k : Service)
    (cdata : Ptr) (served : Served s idx k cdata)
    → PollInv s
    → is_nonneg (accepted_name (os.accept s.clock served.sockbuf.sock)).ret ≡ true
    → (newidx : ℕ) × (s' : State) × (sockbuf_got_readable_server (program os filter others) idx s
        ≡ ok tt s')
      × (is_valid_at s newidx ≡ false)
      × Served s' newidx k cdata
      × Kept s s'
      × PollInv s'
accept-Served os filter others s idx k cdata served inv up =
    let env = program os filter others in
    let name = accepted_name (os.accept s.clock served.sockbuf.sock) in
    let a = got_readable_server-Accepted env s idx served.sockbuf served.holds inv served.bare up in
    let (s', set_run, client, same, kept, inv') =
      set_handler-Served s a.state a.newidx a.client k served.sockbuf.client_data a.holds a.inv
        a.no_filters a.unused a.kept in
    (
      a.newidx,
      s',
      a.runs
          ∙ told os filter others k served.sockbuf idx a.newidx name.ip name.port a.state s'
              served.handler_is set_run,
      a.unused,
      rw (← served.data_is) client,
      kept,
      inv',
    )
