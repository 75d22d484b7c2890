-- ===== src/Client/Manager.antt =====
-- src/client/ClientManager.cpp, src/client/ClientFactory.cpp and `equals` and `hash` of
-- src/client/Client.cpp and src/client/AprscClient.cpp:
-- one client for all feeds of an endpoint, and of a login. The set of clients is the list of its elements; its
-- order stands for nothing.
pub mod Groups
pub mod Threads
use virtual_flight_radar_bac.Common.{
  ℕ, Bool, false, ◌&&◌, ◌==◌, ◌%◌, Option, none, some, List, [], ◌∷◌, ◌++◌, if◌then◌else◌,
}
use virtual_flight_radar_bac.Common.Text.{Str, codes, str_eq}
use virtual_flight_radar_bac.Feed.Feeds.{Protocol, aprs, sbs, gps, sensor}
use virtual_flight_radar_bac.Client
use virtual_flight_radar_bac.Client.{Kind, aprsc, gpsd}

pub record Endpoint : Type 0 where
  pub host : Str
  pub port : Str

-- `operator==`.
abbrev pub same_endpoint : Endpoint → Endpoint → Bool
same_endpoint a b = str_eq a.host b.host && str_eq a.port b.port

-- Where a client connects, and the login of an AprscClient.
pub record Key : Type 0 where
  pub endpoint : Endpoint
  pub login : Option Str

-- The members of a client that its `equals` and its `hash` look at.
unfoldable pub key_of : Kind → Endpoint → Key
key_of (aprsc login) e = record { endpoint = e; login = some login }
key_of gpsd e = record { endpoint = e; login = none }
key_of Client.sbs e = record { endpoint = e; login = none }
key_of Client.sensor e = record { endpoint = e; login = none }

-- `self.equals(other)`: only an AprscClient looks at the class and at the login of the other. Its
-- `m_login` ends in CR LF always.
unfoldable pub equals : Key → Key → Bool
equals self other = elim self.login [
  | none ↦ same_endpoint self.endpoint other.endpoint
  | some login ↦ elim other.login [
    | none ↦ false
    | some its ↦ same_endpoint self.endpoint other.endpoint && str_eq login its
  ]
]

-- A step of `hash`, by what `boost::hash_combine` makes of a seed and a text. A seed is a `size_t`.
abbrev pub combined : (ℕ → Str → ℕ) → ℕ → Str → ℕ
combined combine seed s = combine seed s % 0x10000000000000000

-- The hash that a client without a login has.
abbrev pub endpoint_hash : (ℕ → Str → ℕ) → Endpoint → ℕ
endpoint_hash combine e = combined combine (combined combine 0 e.host) e.port

unfoldable pub hash : (ℕ → Str → ℕ) → Key → ℕ
hash combine k =
    let seed = endpoint_hash combine k.endpoint in
    elim k.login [ none ↦ seed | some login ↦ combined combine seed (login ++ codes "\r\n") ]

-- Whether a set takes a new client for one that it has: it asks `equals` at equal hashes only.
unfoldable pub is_found : (ℕ → Str → ℕ) → Key → Key → Bool
unfolding equals hash
is_found combine new old = (hash combine new == hash combine old) && equals new old

-- What the manager asks of a feed. The login is that of an AprscFeed.
pub record FeedInfo : Type 0 where
  pub protocol : Protocol
  pub endpoint : Endpoint
  pub login : Str

pub record Member (F : Type 0) : Type 0 where
  pub kind : Kind
  pub endpoint : Endpoint
  pub feeds : List F

unfoldable pub create_client_for : FeedInfo → Kind
create_client_for f = elim f.protocol [
  | aprs ↦ aprsc f.login
  | sbs ↦ Client.sbs
  | gps ↦ gpsd
  | sensor ↦ Client.sensor
]

module _ {F : Type 0} (combine : ℕ → Str → ℕ) (info : F → FeedInfo) where
  -- A new client with its first feed.
  unfoldable pub first_of : F → List F → Member F
  first_of f rest = record {
    kind = create_client_for (info f);
    endpoint = (info f).endpoint;
    feeds = f ∷ rest;
  }

  -- `subscribe`: `insert` gives the equal client that is there, or the new one.
  unfoldable pub subscribe : List (Member F) → F → List (Member F)
  unfolding first_of
  subscribe [] f = first_of f [] ∷ []
  subscribe (c ∷ cs) f =
      let rest = subscribe cs f in
      let new = key_of (create_client_for (info f)) (info f).endpoint in
      if is_found combine new (key_of c.kind c.endpoint)
      then record c { feeds = c.feeds ++ f ∷ [] } ∷ cs
      else c ∷ rest

  -- The loop of `VFRB::run` over the feeds.
  unfoldable pub subscribe_all : List (Member F) → List F → List (Member F)
  unfolding subscribe
  subscribe_all cs [] = cs
  subscribe_all cs (f ∷ fs) = subscribe_all (subscribe cs f) fs
