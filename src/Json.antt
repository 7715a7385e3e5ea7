-- ===== src/Json.antt =====
-- The Python values that JSON bodies and JWT claims hold.
pub mod Dumps
use civic_archive_api.Prelude.{ℕ, String, Bool, Option, none, some, ◌==◌, if◌then◌else◌}
use civic_archive_api.Prelude.Int.{ℤ}

-- A float: `finite m k` is m / 2^k.
pub data Float : Type 0 where
  finite : ℤ → ℕ → Float
  infinity nan : Float

mutual
  pub data Json : Type 0 where
    null : Json
    bool : Bool → Json
    int : ℤ → Json
    float : Float → Json
    str : String → Json
    arr : Items → Json
    obj : Fields → Json

  pub data Items : Type 0 where
    nil : Items
    cons : Json → Items → Items

  -- A JSON object; a key that stands twice has the value of its first entry.
  pub data Fields : Type 0 where
    end : Fields
    field : String → Json → Fields → Fields

-- `d.get(key)`
unfoldable pub get_field : String → Fields → Option Json
get_field key end = none
get_field key (field k v d) = if k == key then some v else get_field key d

-- `d.get(key)` where a missing key and a null are not told apart
unfoldable pub get_or_null : String → Fields → Json
get_or_null key end = null
get_or_null key (field k v d) = if k == key then v else get_or_null key d
