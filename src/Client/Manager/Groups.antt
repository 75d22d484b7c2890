-- ===== src/Client/Manager/Groups.antt =====
-- Which client gets which feeds.
use virtual_flight_radar_bac.Common.{
  ℕ, ◌≢◌, Bool, true, false, ◌&&◌, Option, none, some, List, [], ◌∷◌, ◌++◌, if◌then◌else◌,
}
use virtual_flight_radar_bac.Common.Text.{Str, codes, str_eq}
use virtual_flight_radar_bac.Client.Manager.{
  Endpoint, Key, FeedInfo, Member, same_endpoint, combined, endpoint_hash, key_of,
  create_client_for, first_of,
}

abbrev same_login : Option Str → Option Str → Bool
same_login none none = true
same_login none (some its) = false
same_login (some login) none = false
same_login (some login) (some its) = str_eq login its

-- One endpoint, and one login or no login at all.
unfoldable pub same_key : Key → Key → Bool
same_key a b = same_endpoint a.endpoint b.endpoint && same_login a.login b.login

module _ {F : Type 0} (combine : ℕ → Str → ℕ) (info : F → FeedInfo) where
  -- A login, if there is one, changes the hash of its endpoint.
  abbrev pub IsTold : Endpoint → Option Str → Type 0
  IsTold e none = Unit {0}
  IsTold e (some login) =
      combined combine (endpoint_hash combine e) (login ++ codes "\r\n") ≢ endpoint_hash combine e

  abbrev member_key : Member F → Key
  member_key c = key_of c.kind c.endpoint

  abbrev feed_key : F → Key
  feed_key f = key_of (create_client_for (info f)) (info f).endpoint

  abbrev pub IsToldFeed : F → Type 0
  IsToldFeed f = IsTold (feed_key f).endpoint (feed_key f).login

  abbrev IsToldMember : Member F → Type 0
  IsToldMember c = IsTold (member_key c).endpoint (member_key c).login

  -- The clients, and the feeds, of an endpoint and a login.
  abbrev pub clients_at : Key → List (Member F) → List (Member F)
  clients_at k [] = []
  clients_at k (c ∷ cs) = if same_key k (member_key c) then c ∷ clients_at k cs else clients_at k cs

  abbrev pub feeds_at : Key → List F → List F
  feeds_at k [] = []
  feeds_at k (f ∷ fs) = if same_key k (feed_key f) then f ∷ feeds_at k fs else feeds_at k fs

  -- No client for no feed; else one client, made for the first of the feeds, that has them all.
  abbrev pub client_of : List F → List (Member F)
  client_of [] = []
  client_of (f ∷ fs) = first_of combine info f fs ∷ []

  abbrev with_feed : F → List (Member F) → List (Member F)
  with_feed f [] = first_of combine info f [] ∷ []
  with_feed f (c ∷ cs) = record c { feeds = c.feeds ++ f ∷ [] } ∷ cs
