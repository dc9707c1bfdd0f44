-- ===== src/PopulateMap/Cities.antt =====
-- The table `cities` of infra/grafana/dashboards/populate_map.py. The coordinates are floats with at
-- most two decimal places, and stand here as hundredths of a degree with their sign.
use nex_pulse.Base.{ℕ, String, List, [], ◌∷◌}

pub data Coordinate : Type 0 where
  plus : ℕ → Coordinate
  minus : ℕ → Coordinate

pub record City : Type 0 where
  pub name : String
  pub lat : Coordinate
  pub lon : Coordinate
  pub val : ℕ

abbrev city : String → Coordinate → Coordinate → ℕ → City
city name lat lon val = record { name = name; lat = lat; lon = lon; val = val }

unfoldable pub cities : List City
cities =
    city "New York" (plus 4071) (minus 7400) 150
    ∷ city "Los Angeles" (plus 3405) (minus 11824) 120
    ∷ city "San Francisco" (plus 3777) (minus 12241) 140
    ∷ city "Chicago" (plus 4187) (minus 8762) 90
    ∷ city "Toronto" (plus 4365) (minus 7938) 85
    ∷ city "Vancouver" (plus 4928) (minus 12312) 60
    ∷ city "Mexico City" (plus 1943) (minus 9913) 110
    ∷ city "Miami" (plus 2576) (minus 8019) 75
    ∷ city "Dallas" (plus 3277) (minus 9679) 80
    ∷ city "Seattle" (plus 4760) (minus 12233) 95
    ∷ city "London" (plus 5150) (minus 12) 160
    ∷ city "Paris" (plus 4885) (plus 235) 130
    ∷ city "Berlin" (plus 5252) (plus 1340) 110
    ∷ city "Madrid" (plus 4041) (minus 370) 90
    ∷ city "Rome" (plus 4190) (plus 1249) 80
    ∷ city "Amsterdam" (plus 5236) (plus 490) 140
    ∷ city "Frankfurt" (plus 5011) (plus 868) 180
    ∷ city "Stockholm" (plus 5932) (plus 1806) 60
    ∷ city "Moscow" (plus 5575) (plus 3761) 70
    ∷ city "Dublin" (plus 5334) (minus 626) 85
    ∷ city "Tokyo" (plus 3568) (plus 13969) 170
    ∷ city "Seoul" (plus 3756) (plus 12697) 130
    ∷ city "Beijing" (plus 3990) (plus 11640) 150
    ∷ city "Shanghai" (plus 3123) (plus 12147) 160
    ∷ city "Hong Kong" (plus 2231) (plus 11416) 140
    ∷ city "Mumbai" (plus 1907) (plus 7287) 120
    ∷ city "Delhi" (plus 2870) (plus 7710) 110
    ∷ city "Bangalore" (plus 1297) (plus 7759) 135
    ∷ city "Singapore" (plus 135) (plus 10381) 190
    ∷ city "Bangkok" (plus 1375) (plus 10050) 90
    ∷ city "Jakarta" (minus 620) (plus 10681) 100
    ∷ city "Dubai" (plus 2520) (plus 5527) 115
    ∷ city "Sao Paulo" (minus 2355) (minus 4663) 130
    ∷ city "Buenos Aires" (minus 3460) (minus 5838) 80
    ∷ city "Bogota" (plus 471) (minus 7407) 70
    ∷ city "Lima" (minus 1204) (minus 7702) 65
    ∷ city "Santiago" (minus 3344) (minus 7066) 75
    ∷ city "Lagos" (plus 652) (plus 337) 95
    ∷ city "Cairo" (plus 3004) (plus 3123) 85
    ∷ city "Johannesburg" (minus 2620) (plus 2804) 90
    ∷ city "Nairobi" (minus 129) (plus 3682) 60
    ∷ city "Cape Town" (minus 3392) (plus 1842) 75
    ∷ city "Sydney" (minus 3386) (plus 15120) 110
    ∷ city "Melbourne" (minus 3781) (plus 14496) 95
    ∷ city "Auckland" (minus 3684) (plus 17476) 60
    ∷ city "Brisbane" (minus 2746) (plus 15302) 50
    ∷ []
