-- ===== src/Providers/Cache/Tests.antt =====
-- The theorems on caches at a store with one entry.
use py_bike_router.Base.{ℕ, ◌+◌, String, ◌≡◌, ◌≢◌, refl, none, some, [], ltb, str_eq, if◌then◌else◌}
use py_bike_router.Providers.Cache.{Store, get, set, get_in, set_in}
use py_bike_router.Providers.Cache.Laws.{get-set, get_in-set_in}

abbrev cached : Store ℕ
cached = set "geocode:home" 5 60 100 []

get-set_example : (get "geocode:home" 170 (set "geocode:home" 7 60 120 cached)).1 ≡ (
    if str_eq "geocode:home" "geocode:home"
    then if ltb (120 + 60) 170 then none else some 7
    else (get "geocode:home" 170 cached).1)
get-set_example = get-set "geocode:home" "geocode:home" 7 60 120 170 cached

abbrev overpass : String
overpass = "overpass"

abbrev geocode : String
geocode = "geocode"

overpass_differs : overpass ≢ geocode
overpass_differs e = cc

get_in-set_in_example :
    (get_in geocode "home" 130 (set_in overpass "home" 9 60 120 cached)).1
    ≡ (get_in geocode "home" 130 cached).1
get_in-set_in_example =
    get_in-set_in overpass "geocode" "home" "home" 9 60 120 130 cached refl refl overpass_differs
