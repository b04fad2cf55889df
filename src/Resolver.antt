-- ===== src/Resolver.antt =====
-- tornado/Resolver.h and tornado/Resolver.cpp: lookups of host names by c-ares on the event loop. The
-- model is that of a build with assertions. c-ares, which the sources only call, is a parameter: what
-- a call of it does is the list of the callbacks that it makes before it returns.
pub mod Sockets
pub mod Runs
pub mod Lookups
pub mod Lifetime
pub mod Library
mod Tests
use simplesvr.Prelude.{
  ℕ, Bool, true, false, not, ◌&&◌, List, [], ◌∷◌, Option, none, some, ◌==◌, if◌then◌else◌, Bytes,
}
use simplesvr.Prelude.Partial.{◌>>=◌}
use simplesvr.Prelude.Int.{ℤ, pos, negsuc}
use simplesvr.Stream.{Events, no_events, has_events, events_eq}
use simplesvr.TimeoutQueue.MultiIndex.{Container}
use simplesvr.Loop.{Loop, add_handler, update_handler, remove_handler, add_timeout, remove_timeout}

-- The addresses of a host, as `inet_ntop` prints them.
abbrev pub Hosts : Type 0
Hosts = List Bytes

-- A callback of c-ares: a socket whose state changes, with what the loop's calls of `epoll_ctl` return
-- for it, or the end of a lookup, with the addresses of the host unless it failed.
pub data AresEvent : Type 0 where
  sock_state : ℕ → Bool → Bool → ℤ → AresEvent
  host_reply : Option Hosts → AresEvent

-- A call of c-ares: `ares_gethostbyname`, or `ares_process_fd` where `none` is ARES_SOCKET_BAD.
pub data AresCall : Type 0 where
  get_host : Bytes → ℕ → AresCall
  process : Option ℕ → Option ℕ → AresCall

-- The bits of `optmask` by their names in c-ares.
pub data OptionName : Type 0 where
  opt_sock_state_cb opt_flags opt_tries opt_ndots opt_udp_port opt_tcp_port : OptionName

-- The members of `struct ares_options` that `init` sets, beside the callback. An option that is not set
-- stays 0. The arguments are not negative.
pub record AresOptions : Type 0 where
  pub flags : ℕ
  pub tries : ℕ
  pub ndots : ℕ
  pub udp_port : ℕ
  pub tcp_port : ℕ

abbrev pub init_options : ℕ → ℕ → ℕ → ℕ → ℕ → AresOptions
init_options flags tries ndots udp_port tcp_port = record {
  flags = flags;
  tries = tries;
  ndots = ndots;
  udp_port = udp_port;
  tcp_port = tcp_port;
}

abbrev pub with_option : ℕ → OptionName → List OptionName → List OptionName
with_option value name mask = if value == 0 then mask else name ∷ mask

abbrev pub option_mask : AresOptions → List OptionName
option_mask o = with_option o.tcp_port opt_tcp_port (
    with_option o.udp_port opt_udp_port (
      with_option o.ndots opt_ndots
        (with_option o.tries opt_tries (with_option o.flags opt_flags (opt_sock_state_cb ∷ [])))))

module _ (c : Container) (handler timer_callback : ℕ) where
  -- `ready` says that `channel_` is set; `state` is `state_`, no events being 0; a timer of 0 is none.
  pub record Resolver : Type 0 where
    pub ready : Bool
    pub state : Events
    pub timer : ℕ
    pub cb : Option ℕ
    pub loop : Loop c

  -- What the callback of a lookup does, by its arguments.
  abbrev pub OnReply : Type 0
  OnReply = ℕ → ℤ → Option Hosts → Resolver → Resolver

  -- `init`, with what `ares_init_options` says of the options and of the mask. `none` is a failed
  -- assertion.
  unfoldable pub init :
      (AresOptions → List OptionName → Bool) → ℕ → ℕ → ℕ → ℕ → ℕ → Resolver → Option (ℤ × Resolver)
  init ares_init_options flags tries ndots udp_port tcp_port r =
      let options = init_options flags tries ndots udp_port tcp_port in
      if r.ready
      then none
      else if ares_init_options options (option_mask options)
      then some (pos 0, record r { ready = true })
      else some (negsuc 0, r)

  unfoldable pub remove_timer : Resolver → Resolver
  remove_timer r =
      if r.timer == 0 then r else record r { loop = (remove_timeout c r.timer r.loop).1; timer = 0 }

  -- The events that `sock_state_callback` asks for: always `IOLoop::ERROR`.
  abbrev pub wanted : Bool → Bool → Events
  wanted read write = record { readable = read; writable = write; failing = true }

  -- The second and the third `if` of `sock_state_callback`.
  unfoldable pub add_if_new : ℕ → Events → ℤ → Resolver → Option Resolver
  add_if_new socket events result r =
      if has_events r.state
      then some r
      else elim (add_handler c socket (some handler) events result r.loop) [
        | none ↦ none
        | some (added, l) ↦ some (record r { state = events; loop = l })
      ]

  unfoldable pub update_if_changed : ℕ → Events → ℤ → Resolver → Resolver
  update_if_changed socket events result r =
      if events_eq r.state events
      then r
      else record r { state = events; loop = (update_handler c socket events result r.loop).1 }

  -- The member function `sock_state_callback`. The object has one `state_` for all sockets.
  unfoldable pub sock_state_callback : ℕ → Bool → Bool → ℤ → Resolver → Option Resolver
  sock_state_callback socket read write result r =
      if not r.ready
      then none
      else if not read && (not write && has_events r.state)
      then some (record r { loop = (remove_handler c socket result r.loop).1; state = no_events })
      else (do
        r' ← add_if_new socket (wanted read write) result r
        some (update_if_changed socket (wanted read write) result r'))

  unfoldable pub run_callback : OnReply → ℤ → Option Hosts → Resolver → Resolver
  run_callback on_reply err hosts r =
      let r' = remove_timer r in
      elim r'.cb [ none ↦ r' | some cb ↦ record (on_reply cb err hosts r') { cb = none } ]

  -- `ares_host_callback`.
  unfoldable pub host_callback : OnReply → Option Hosts → Resolver → Resolver
  host_callback on_reply none r = run_callback on_reply (negsuc 0) none r
  host_callback on_reply (some hosts) r = run_callback on_reply (pos 0) (some hosts) r

  unfoldable pub run_event : OnReply → AresEvent → Resolver → Option Resolver
  run_event on_reply (sock_state socket read write result) r =
      sock_state_callback socket read write result r
  run_event on_reply (host_reply hosts) r = some (host_callback on_reply hosts r)

  -- The callbacks that a call of c-ares makes, in their order.
  unfoldable pub run_events : OnReply → List AresEvent → Resolver → Option Resolver
  run_events on_reply [] r = some r
  run_events on_reply (e ∷ es) r = do r' ← run_event on_reply e r; run_events on_reply es r'

  -- `gethostbyname`, at a time of the clock. The timer is added after c-ares has returned.
  unfoldable pub gethostbyname :
      OnReply → (AresCall → List AresEvent) → ℕ → ℕ → Bytes → ℕ → ℕ → Resolver → Option Resolver
  gethostbyname on_reply ares now cb name family timeout_ms r = if not r.ready then none else (do
    r' ← run_events on_reply (ares (get_host name family)) (record r { cb = some cb })
    let (tid, l) = add_timeout c now timeout_ms timer_callback r'.loop
    some (record r' { timer = tid; loop = l }))

  unfoldable pub on_timer : OnReply → (AresCall → List AresEvent) → ℕ → Resolver → Option Resolver
  on_timer on_reply ares tid r =
      let fired = run_events on_reply (ares (process none none)) (record r { timer = 0 }) in
      if not (tid == r.timer) then none else if r.timer == 0 then some r else fired

  unfoldable pub process_fd :
      OnReply → (AresCall → List AresEvent) → ℕ → Events → Resolver → Option Resolver
  process_fd on_reply ares fd events r =
      let read_fd : Option ℕ = if events.readable then some fd else none in
      let write_fd : Option ℕ = if events.writable then some fd else none in
      if not r.ready then none else run_events on_reply (ares (process read_fd write_fd)) r
