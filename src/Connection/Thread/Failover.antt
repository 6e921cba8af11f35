-- ===== src/Connection/Thread/Failover.antt =====
-- A connection that is lost and cannot be prepared again (src/tase2_client_connection.cpp).
use fledge_south_tase.Common.{
  ℕ, Bool, true, false, List, [], ◌∷◌, Option, none, some, ◌≡◌, subst, refl, ◌∙◌, arith,
  if◌then◌else◌,
}
use fledge_south_tase.Config.{Config}
use fledge_south_tase.Connection.{
  Connection, Library, ConState, idle, connected, fatal_error, disconnected,
}
use fledge_south_tase.Connection.Prepare.{
  Prepared, prepared, null_dereference, prepare_connection, create_endpoint, finish,
}
use fledge_south_tase.Connection.Thread.{
  connect_client-begun, Round, running, crashed, clean_up, without_endpoint, start_connecting,
  idle_round, connected_round, dispatch, con_thread_round,
}

-- The flags that Connected () and Disconnected () read, and the request to connect.
abbrev pub SameFlags : Connection → Connection → Type 0
SameFlags c d =
    (d.is_connected ≡ c.is_connected)
    × (d.connect ≡ c.connect)
    × (d.osi_parameters ≡ c.osi_parameters)

pub create_endpoint-SameFlags :
    (l : Library) (config : Config) (c : Connection) → SameFlags c (create_endpoint l config c)
unfolding create_endpoint
create_endpoint-SameFlags l config c = ground arith

abbrev OfPrepared : (Connection → Type 0) → Prepared → Type 0
OfPrepared P (prepared c ok) = P c
OfPrepared P (null_dereference c) = P c

finish-SameFlags :
    (l : Library) (c : Connection) (o : Option ℕ) → OfPrepared (SameFlags c) (finish l c o)
finish-SameFlags l c none = (refl, refl, refl)
finish-SameFlags l c (some e) = ground arith

-- What is known of a round that ends in the state for a fatal error.
start_connecting-SameFlags :
    (l : Library) (c : Connection) (p : Prepared) (d : Connection)
    → OfPrepared (SameFlags c) p
    → start_connecting l p ≡ running d
    → SameFlags c d
start_connecting-SameFlags l c (prepared e true) d s h =
    subst (SameFlags c) (connect_client-begun l e d e.endpoint e.tase2client h) s
start_connecting-SameFlags l c (prepared e false) d s h = ground arith
start_connecting-SameFlags l c (null_dereference e) d s h = cc

prepare_connection-SameFlags :
    (l : Library) (config : Config) (c : Connection)
    → OfPrepared (SameFlags c) (prepare_connection l config c)
unfolding prepare_connection
prepare_connection-SameFlags l config c =
    join (finish l c' c'.endpoint) (create_endpoint-SameFlags l config c)
      (finish-SameFlags l c' c'.endpoint)
  where
    c' : Connection
    c' = create_endpoint l config c

    join :
        (p : Prepared) → SameFlags c c' → OfPrepared (SameFlags c') p → OfPrepared (SameFlags c) p
    join (prepared d ok) (a, b, o) (a', b', o') = (a' ∙ a, b' ∙ b, o' ∙ o)
    join (null_dereference d) (a, b, o) (a', b', o') = (a' ∙ a, b' ∙ b, o' ∙ o)

pub idle_round-SameFlags :
    (l : Library) (config : Config) (c d : Connection)
    → idle_round l config c ≡ running d
    → SameFlags c d
unfolding idle_round
idle_round-SameFlags l config c d h =
    start_connecting-SameFlags l (without_endpoint c) _ d
      (prepare_connection-SameFlags l config (without_endpoint c)) h

abbrev pub and_then : Round → (Connection → Round) → Round
and_then (running c) k = k c
and_then (crashed c) k = crashed c

-- Rounds under one answer of the library after the other.
unfoldable pub con_thread : Config → List Library → Connection → Round
con_thread config [] c = running c
con_thread config (l ∷ ls) c = and_then (con_thread_round l config c) (con_thread config ls)

pub con_thread_round_fatal :
    (config : Config) (l : Library) (c : Connection)
    → c.state ≡ fatal_error
    → con_thread_round l config c ≡ running c
unfolding con_thread_round dispatch
con_thread_round_fatal config l c e = stays c.connect c.state e
  where
    stays :
        (b : Bool) (s : ConState)
        → s ≡ fatal_error
        → (if b then dispatch s l config c else running c) ≡ running c
    stays b s e = ground arith

-- The state for a fatal error is left by no round of the thread.
con_thread_fatal :
    (config : Config) (ls : List Library) (c : Connection)
    → c.state ≡ fatal_error
    → con_thread config ls c ≡ running c
unfolding con_thread
con_thread_fatal config [] c e = refl
con_thread_fatal config (l ∷ ls) c e =
    rw (con_thread_round_fatal config l c e) (con_thread_fatal config ls c e)

-- A connection that was connected, lost its endpoint in one round and met a fatal error in the
-- next is taken for connected for ever: whatever the library answers in later rounds it stays as
-- it is, and Disconnected () is false, so the monitoring thread does not try another connection.
pub con_thread_lost :
    (config : Config) (l l' : Library) (ls : List Library) (c d e : Connection)
    → c.state ≡ connected
    → c.connect ≡ true
    → c.is_connected ≡ true
    → l.endpoint_connected ≡ false
    → con_thread_round l config c ≡ running d
    → con_thread_round l' config d ≡ running e
    → e.state ≡ fatal_error
    → (con_thread config ls e ≡ running e) × (e.is_connected ≡ true) × (disconnected e ≡ false)
unfolding con_thread_round dispatch connected_round clean_up
con_thread_lost config l l' ls c d e s asked online lost h h' fatal =
    let (dc, dk, ds) = lost_round in
    let (ec, _, _) = idle_round-SameFlags l' config d e (second d.connect d.state dk ds h') in
    (con_thread_fatal config ls e fatal, ec ∙ dc, ground arith)
  where
    first :
        (b : Bool) (s : ConState)
        → b ≡ true
        → s ≡ connected
        → (if b then dispatch s l config c else running c) ≡ running d
        → (d.is_connected ≡ c.is_connected) × (d.connect ≡ c.connect) × (d.state ≡ idle)
    first b s p q r = ground arith

    lost_round : (d.is_connected ≡ true) × (d.connect ≡ true) × (d.state ≡ idle)
    lost_round = let (x, y, z) = first c.connect c.state asked s h in (x ∙ online, y ∙ asked, z)

    second :
        (b : Bool) (s : ConState)
        → b ≡ true
        → s ≡ idle
        → (if b then dispatch s l' config d else running d) ≡ running e
        → idle_round l' config d ≡ running e
    second b s p q r = ground arith
