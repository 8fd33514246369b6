-- ===== src/Base/Json.antt =====
-- Values of `json.loads`, and the dictionary operations that the code applies to them.
use Prim.Native.String.{String}
use mathlib.Core.Bool.{Bool}
use mathlib.Core.Option.{Option, none, some}
use mathlib.Core.List.{List, [], ◌∷◌}
use package.text.Mathlib.Text.{◌==◌ as str_eq}
use py_bike_router.Base.Int.{ℤ}
use py_bike_router.Base.Tests.{if◌then◌else◌}

-- A number is either an `int`, or a `float` kept by its literal: the code never computes with one.
mutual
  pub data Json : Type 0 where
    null : Json
    boolean : Bool → Json
    integer : ℤ → Json
    float : String → Json
    text : String → Json
    array : Items → Json
    object : Fields → Json

  pub data Items : Type 0 where
    nil : Items
    cons : Json → Items → Items

  pub data Fields : Type 0 where
    end : Fields
    field : String → Json → Fields → Fields

-- d.get(k): `none` where the key is missing.
abbrev pub get : String → Fields → Option Json
get k end = none
get k (field j v fs) = if str_eq j k then some v else get k fs

-- d.get(k) as Python returns it: `None` where the key is missing.
abbrev pub get_or_null : String → Fields → Json
get_or_null k fs = elim (get k fs) [ none ↦ null | some v ↦ v ]

abbrev pub items : Items → List Json
items nil = []
items (cons v vs) = v ∷ items vs
