-- ===== src/Feed/Factory/Usable.antt =====
-- What the feeds of the program are like.
use virtual_flight_radar_bac.Common.{
  ℕ, ◌^◌, ◌<◌, ◌≡◌, false, Option, none, some, List, [], ◌∷◌, inl, inr, arith, All, Option-cases,
}
use virtual_flight_radar_bac.Common.Text.{Str}
use virtual_flight_radar_bac.Feed.Feeds.{
  Lookup, Feed, Made, made, problem, is_empty, init_priority, make_feed, make_aprsc_feed,
}
use virtual_flight_radar_bac.Feed.Factory.{
  FeedClass, aprsc_feed, sbs_feed, gps_feed, wind_feed, atmosphere_feed, make_of, create_feed,
  create_feeds, class_of, taken,
}

-- A feed that a client can connect for: a host, a port, and a `uint32_t` as its priority.
pub record IsUsable (f : Feed) : Type 0 where
  pub host : is_empty f.host ≡ false
  pub port : is_empty f.port ≡ false
  pub priority : f.priority < 2 ^ 32

abbrev AreUsable : Made → Type 0
AreUsable (made f) = IsUsable f
AreUsable (problem p) = Unit {0}

init_priority-lt : (property : Lookup) (n : ℕ) → init_priority property ≡ some n → n < 2 ^ 32
unfolding init_priority
init_priority-lt property n e = ground arith

make_feed-AreUsable :
    (garbage : ℕ) (name : Str) (property : Lookup)
    → garbage < 2 ^ 32
    → AreUsable (make_feed garbage name property)
unfolding make_feed
make_feed-AreUsable garbage name property g = elim (Option-cases (init_priority property)) [
  | inl absent ↦ ground (arith, absent)
  | inr (n, e) ↦ ground (arith, e, init_priority-lt property n e)
]

make_of-AreUsable :
    (garbage : ℕ) (c : FeedClass) (name : Str) (property : Lookup)
    → garbage < 2 ^ 32
    → AreUsable (make_of garbage c name property)
unfolding make_of make_aprsc_feed
make_of-AreUsable garbage aprsc_feed name property g =
    ground (arith, make_feed-AreUsable garbage name property g)
make_of-AreUsable garbage sbs_feed name property g = make_feed-AreUsable garbage name property g
make_of-AreUsable garbage gps_feed name property g = make_feed-AreUsable garbage name property g
make_of-AreUsable garbage wind_feed name property g = make_feed-AreUsable garbage name property g
make_of-AreUsable garbage atmosphere_feed name property g =
    make_feed-AreUsable garbage name property g

abbrev pub HasUsable : FeedClass × Feed → Type 0
HasUsable made_feed = IsUsable made_feed.1

abbrev AreTaken : Option (FeedClass × Made) → Type 0
AreTaken none = Unit {0}
AreTaken (some (c, m)) = AreUsable m

create_feed-AreTaken :
    (garbage : ℕ) (name : Str) (property : Lookup)
    → garbage < 2 ^ 32
    → AreTaken (create_feed garbage name property)
unfolding create_feed
create_feed-AreTaken garbage name property g =
    elim (class_of name)
      as (λ o.
        AreTaken (elim o [ none ↦ none | some c ↦ some (c, make_of garbage c name property) ])) [
          | none ↦ tt
          | some c ↦ make_of-AreUsable garbage c name property g
        ]

taken-HasUsable :
    (o : Option (FeedClass × Made)) (rest : List (FeedClass × Feed))
    → AreTaken o
    → All HasUsable rest
    → All HasUsable (taken o rest)
taken-HasUsable none rest u a = a
taken-HasUsable (some (c, made f)) rest u a = (u, a)
taken-HasUsable (some (c, problem p)) rest u a = a

-- Whatever the names and their properties are, each feed that is created has a host, a port and a
-- priority that is a `uint32_t`, given that the uninitialised priority is one.
pub create_feeds-HasUsable :
    (garbage : ℕ) (names : List (Str × Lookup))
    → garbage < 2 ^ 32
    → All HasUsable (create_feeds garbage names)
unfolding create_feeds
create_feeds-HasUsable garbage [] g = tt
create_feeds-HasUsable garbage ((name, property) ∷ names) g =
    taken-HasUsable (create_feed garbage name property) (create_feeds garbage names)
      (create_feed-AreTaken garbage name property g) (create_feeds-HasUsable garbage names g)
