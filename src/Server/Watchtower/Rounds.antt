-- ===== src/Server/Watchtower/Rounds.antt =====
-- A round of a watchtower loop while the node goes on: between two iterations peers, RPC calls and
-- other watchtower loops may take any steps. What `range` visits next is open, and so is whether it
-- visits a channel that is added during the round; an entry that is deleted is not visited, and
-- Reset gives the node new maps, while a round goes on over the old one.
pub mod Visits
pub mod Effects
pub mod Outcomes
pub mod Passes
use algorand_state_channels.Base.{
  ℕ, ◌+◌, ◌≡◌, Bool, true, false, bytes_has_eq, Option, none, some, List, [], ◌∷◌, ◌++◌, length,
  if◌then◌else◌,
}
use algorand_state_channels.Base.Dict.{Dict, lookup}
use algorand_state_channels.Base.Dict.Keys.{keys, present, absent, without, contains, is_key}
use algorand_state_channels.Payment.Sdk.{Address}
use algorand_state_channels.Server.State.{Server, PaymentChannelInfo, World}
use algorand_state_channels.Server.Action.{ok}
use algorand_state_channels.Server.Watchtower.{watch_channel}
use algorand_state_channels.Server.Reach.{
  Step, resets, opens, open_requested, pays, pay_requested, close_requested, initiates_close,
  finalizes_close, closes, cheats, watches_channel, watches,
}

-- The iterator of `range s.payment_channels_onchain_states`: the map, if the node has replaced it
-- since, the keys that it must still visit unless they are deleted, and those of entries created
-- since the start, which it may visit.
pub record Range : Type 0 where
  pub replaced : Option (Dict Address PaymentChannelInfo)
  pub due : List Address
  pub created : List Address

-- The map of the iterator.
abbrev pub ranged : Range → Server → Dict Address PaymentChannelInfo
ranged r s = elim r.replaced [ none ↦ s.onchain_states | some old ↦ old ]

abbrev pub start_range : Server → Range
start_range s = record { replaced = none; due = keys s.onchain_states; created = [] }

-- After the body has run for a key.
unfoldable pub advance : Address → Server → Range → Range
advance address after r = record r {
  due = present (ranged r after) (without address r.due);
  created = present (ranged r after) (without address r.created);
}

abbrev pub is_reset : {s s' : Server} → Step s s' → Bool
is_reset (resets w s) = true
is_reset (opens w host partner funding penalty window s o) = false
is_reset (open_requested w ip args s o) = false
is_reset (pays w partner amount s words) = false
is_reset (pay_requested w args s bytes) = false
is_reset (close_requested w args s) = false
is_reset (initiates_close partner s) = false
is_reset (finalizes_close partner s) = false
is_reset (closes w partner s) = false
is_reset (cheats partner s) = false
is_reset (watches_channel w address info s) = false
is_reset (watches w s) = false

-- After a step of the node: a reset replaces the maps, all else changes their entries.
unfoldable pub elapse : Bool → Server → Server → Range → Range
elapse true s s' r = record r { replaced = some (ranged r s) }
elapse false s s' r = record r {
  due = present (ranged r s') r.due;
  created = present (ranged r s') r.created ++ absent (ranged r s) (keys (ranged r s'));
}

-- An iteration, with the world and the server that it found.
pub record Visit : Type 0 where
  pub world : World
  pub server : Server
  pub address : Address

-- A round so far, from the server at its start: the server now, the iterator, and the iterations,
-- the last one first. It is over when nothing is due.
pub data Round (start : Server) : Server → Range → List Visit → Type 0 where
  begins : Round start start (start_range start) []
  visits :
      {s : Server} {r : Range} {vs : List Visit} (w : World) (address : Address)
      (info : PaymentChannelInfo) (s' : Server)
      → Round start s r vs
      → lookup address (ranged r s) ≡ some info
      → contains address (r.due ++ r.created) ≡ true
      → watch_channel w address info s ≡ (ok tt, s')
      → Round start s'
          (advance address s' r)
          (record { world = w; server = s; address = address } ∷ vs)
  elapses :
      {s s' : Server} {r : Range} {vs : List Visit}
      → Round start s r vs
      → (st : Step s s') → Round start s' (elapse (is_reset st) s s' r) vs

module _ {start : Server} where
  -- No operation between the iterations removes the channel or replaces the map.
  unfoldable pub IsKept :
      Address → {s : Server} {r : Range} {vs : List Visit} → Round start s r vs → Type 0
  IsKept a begins = Unit
  IsKept a (visits w address info s' round _ _ _) = IsKept a round
  IsKept a (elapses {s} {s'} round st) =
      IsKept a round
      × (is_reset st ≡ false)
      × (is_key a s.onchain_states ≡ true → is_key a s'.onchain_states ≡ true)

  -- Nothing else happened during the round.
  unfoldable pub IsAlone : {s : Server} {r : Range} {vs : List Visit} → Round start s r vs → Type 0
  IsAlone begins = Unit
  IsAlone (visits w address info s' round _ _ _) = IsAlone round
  IsAlone (elapses round st) = ⊥
