-- ===== src/Connection/Reports/Laws.antt =====
-- Which transfer sets m_configDsts sets up, and what cleanUp destroys of them
-- (src/tase2_client_connection.cpp).
use fledge_south_tase.Common.{
  ℕ, suc, String, List, [], ◌∷◌, ◌++◌, map, Option, none, some, ◌≡◌, refl, ap, sym, ◌∙◌,
}
use mathlib.Core.List.{append-nil, append_assoc, map-append}
use fledge_south_tase.Config.{DatasetTransferSet}
use fledge_south_tase.Connection.{Connection, Call, Library, dsts_write_values}
use fledge_south_tase.Connection.Reports.{config_dsts, config_one, config_found, transfer_set_calls}
use fledge_south_tase.Connection.Thread.{clean_up}
use fledge_south_tase.Connection.Thread.Cleanup.{
  destroyed_dsts-append, destroyed_dsts, clean_up-destroyed_dsts,
}

-- The handles of a transfer set and of its data set, where the library has both.
abbrev pub handles : Option ℕ → Option ℕ → List (ℕ × ℕ)
handles none data_set = []
handles (some ts) none = []
handles (some ts) (some data_set) = (ts, data_set) ∷ []

unfoldable pub set_up : Library → ℕ → List (String × DatasetTransferSet) → List (ℕ × ℕ)
set_up l n [] = []
set_up l n ((name, d) ∷ ds) =
    handles (l.transfer_set_handle n) (l.data_set_handle d.domain d.dataset_ref)
    ++ set_up l (suc n) ds

-- The transfer sets that are written to the peer, in order.
unfoldable pub written : List Call → List ℕ
written [] = []
written (dsts_write_values ts ∷ calls) = ts ∷ written calls
written (_ ∷ calls) = written calls

written-append : (front back : List Call) → written (front ++ back) ≡ written front ++ written back
unfolding written
written-append [] back = refl
written-append (dsts_write_values ts ∷ front) back = ap (λ l. ts ∷ l) (written-append front back)
written-append (_ ∷ front) back = written-append front back

-- What the configuration of some transfer sets adds.
abbrev pub Adds : Connection → Connection → List (ℕ × ℕ) → Type 0
Adds c d hs =
    (d.dsts ≡ c.dsts ++ map (λ h. h.0) hs)
    × (d.datasets ≡ c.datasets ++ map (λ h. h.1) hs)
    × (written d.calls ≡ written c.calls ++ map (λ h. h.0) hs)
    × (destroyed_dsts d.calls ≡ destroyed_dsts c.calls)

Adds-append :
    (c d e : Connection) (hs ks : List (ℕ × ℕ)) → Adds c d hs → Adds d e ks → Adds c e (hs ++ ks)
Adds-append c d e hs ks (a, b, w, x) (a', b', w', x') = (
  rw (a', a, map-append, append_assoc) refl,
  rw (b', b, map-append, append_assoc) refl,
  rw (w', w, map-append, append_assoc) refl,
  x' ∙ x,
)

config_found-Adds :
    (d : DatasetTransferSet) (c : Connection) (ts data_set : Option ℕ)
    → Adds c (config_found d c ts data_set) (handles ts data_set)
unfolding written transfer_set_calls
config_found-Adds d c none data_set = (
  sym (append-nil _),
  sym (append-nil _),
  written-append c.calls _,
  destroyed_dsts-append c.calls _ ∙ append-nil _,
)
config_found-Adds d c (some ts) none = (
  sym (append-nil _),
  sym (append-nil _),
  written-append c.calls _,
  destroyed_dsts-append c.calls _ ∙ append-nil _,
)
config_found-Adds d c (some ts) (some h) =
    (refl, refl, written-append c.calls _, destroyed_dsts-append c.calls _ ∙ append-nil _)

config_dsts-Adds :
    (l : Library) (n : ℕ) (ds : List (String × DatasetTransferSet)) (c : Connection)
    → Adds c (config_dsts l n ds c) (set_up l n ds)
unfolding config_dsts config_one set_up
config_dsts-Adds l n [] c = (sym (append-nil _), sym (append-nil _), sym (append-nil _), refl)
config_dsts-Adds l n ((name, d) ∷ ds) c =
    Adds-append c (config_one l n d c) (config_dsts l (suc n) ds (config_one l n d c))
      (handles (l.transfer_set_handle n) (l.data_set_handle d.domain d.dataset_ref))
      (set_up l (suc n) ds)
      (config_found-Adds d c (l.transfer_set_handle n) (l.data_set_handle d.domain d.dataset_ref))
      (config_dsts-Adds l (suc n) ds (config_one l n d c))

-- A connection that has written, destroyed and kept no transfer sets yet sets up exactly those for
-- which the library has both handles: each of them is written to the server once, in order, and is kept with its data set;
-- and the next clean-up destroys exactly the transfer sets that were written.
pub config_dsts-written :
    (l : Library) (ds : List (String × DatasetTransferSet)) (c : Connection)
    → c.dsts ≡ []
    → c.datasets ≡ []
    → written c.calls ≡ []
    → destroyed_dsts c.calls ≡ []
    → let d = config_dsts l 0 ds c in
      (written d.calls ≡ map (λ h. h.0) (set_up l 0 ds))
      × (d.dsts ≡ written d.calls)
      × (d.datasets ≡ map (λ h. h.1) (set_up l 0 ds))
      × (destroyed_dsts (clean_up d).calls ≡ written d.calls)
config_dsts-written l ds c no_dsts no_datasets none_written none_destroyed =
    let (a, b, w, x) = config_dsts-Adds l 0 ds c in
    let kept : (config_dsts l 0 ds c).dsts ≡ map (λ h. h.0) (set_up l 0 ds) = a ∙ rw no_dsts refl in
    let sent : written (config_dsts l 0 ds c).calls ≡ map (λ h. h.0) (set_up l 0 ds) =
      w ∙ rw none_written refl in
    (
      sent,
      kept ∙ sym sent,
      b ∙ rw no_datasets refl,
      (clean_up-destroyed_dsts (config_dsts l 0 ds c)).0
          ∙ ap (λ hs. hs ++ (config_dsts l 0 ds c).dsts) (x ∙ none_destroyed)
          ∙ kept
          ∙ sym sent,
    )
