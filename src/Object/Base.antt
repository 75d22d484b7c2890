-- ===== src/Object/Base.antt =====
-- include/object/Object.h and src/object/Object.cpp: the base class of all that feeds report.
use virtual_flight_radar_bac.Common.{ℕ, ◌+◌, ◌%◌, ◌^◌, Bool, ◌||◌, [], leb}
use virtual_flight_radar_bac.Common.Text.{Str}

-- `last_priority` and `update_age` are `uint32_t`.
pub record Object : Type 0 where
  pub last_priority : ℕ
  pub update_age : ℕ
  pub serialized : Str

-- OBJ_OUTDATED.
abbrev pub obj_outdated : ℕ
obj_outdated = 4

unfoldable pub of_priority : ℕ → Object
of_priority p = record { last_priority = p; update_age = 0; serialized = [] }

-- `Object::assign(other)`.
unfoldable pub assign : Object → Object → Object
assign self other = record self {
  serialized = other.serialized;
  last_priority = other.last_priority;
  update_age = 0;
}

-- `self.canUpdate(other)`: `self` is the new report.
unfoldable pub can_update : Object → Object → Bool
can_update self other =
    leb other.last_priority self.last_priority || leb obj_outdated other.update_age

unfoldable pub set_serialized : Object → Str → Object
set_serialized self s = record self { serialized = s }

-- `operator++`.
unfoldable pub increment : Object → Object
increment self = record self { update_age = (self.update_age + 1) % 2 ^ 32 }
