-- ===== src/Json.antt =====
-- JSON values as `json.loads` returns them (the payloads of app/routers/webhooks.py and the JSON
-- columns of app/models). An object is its fields in insertion order.
use procore_intake_bridge.Base.{String, Bool}

mutual
  pub data Json : Type 0 where
    null : Json
    bool : Bool → Json
    -- A number: what the code reads of it is whether it is 0 (a falsy value), and its `str`.
    number : Bool → String → Json
    string : String → Json
    array : Items → Json
    object : Fields → Json

  pub data Items : Type 0 where
    nil : Items
    cons : Json → Items → Items

  pub data Fields : Type 0 where
    end : Fields
    field : String → Json → Fields → Fields
