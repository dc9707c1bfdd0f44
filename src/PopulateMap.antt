-- ===== src/PopulateMap.antt =====
-- infra/grafana/dashboards/populate_map.py: one query for each city, joined by " or ", is written
-- into the line of the generator that assigns `geomap_expr`.
pub mod Cities
pub mod Quoting
pub mod Laws
use nex_pulse.Base.{ℕ, ◌/◌, ◌%◌, ◌+◌, List, [], ◌∷◌, ◌++◌, map, ◌==◌, if◌then◌else◌}
use nex_pulse.Text.{Text, codes, starts_with, strip, indent_of}
use nex_pulse.Text.Decimal.{decimal}
use nex_pulse.Script.{Ending, written}
use Cities.{City, Coordinate, plus, minus, cities}

-- The decimal places of `str` of a float: a last zero is not printed, but one place always is.
places : ℕ → Text
places k = if k % 10 == 0 then (48 + k / 10) ∷ [] else (48 + k / 10) ∷ (48 + k % 10) ∷ []

-- `str(x)` of a coordinate below 10^16, as Python prints floats.
unfoldable pub show : Coordinate → Text
unfolding places
show (plus k) = decimal (k / 100) ++ b'.' ∷ places (k % 100)
show (minus k) = b'-' ∷ (decimal (k / 100) ++ b'.' ∷ places (k % 100))

-- The f-string of one city.
unfoldable pub query : City → Text
unfolding show
query c =
    codes "label_replace(label_replace(label_replace(vector("
    ++ (decimal c.val
        ++ (codes "), \"city\", \""
            ++ (codes c.name
                ++ (codes "\", \"\", \"\"), \"lat\", \""
                    ++ (show c.lat
                        ++ (codes "\", \"\", \"\"), \"lon\", \""
                            ++ (show c.lon ++ codes "\", \"\", \"\")")))))))

-- `sep.join(parts)`
unfoldable pub join : Text → List Text → Text
join sep [] = []
join sep (t ∷ []) = t
join sep (t ∷ u ∷ ts) = t ++ (sep ++ join sep (u ∷ ts))

unfoldable pub expr_of : List City → Text
unfolding query join
expr_of table = join (codes " or ") (map query table)

-- The loop's body for one line.
unfoldable pub inject_line : Text → Text → Text
unfolding starts_with strip indent_of
inject_line final_expr line =
    if starts_with (strip line) (codes "geomap_expr = ")
    then indent_of line ++ (codes "geomap_expr = '" ++ (final_expr ++ codes "'\n"))
    else line

unfoldable pub inject : Text → List Text → Ending
unfolding inject_line
inject final_expr lines = written (map (inject_line final_expr) lines)

unfoldable pub populate_map : List Text → Ending
unfolding inject expr_of
populate_map lines = inject (expr_of cities) lines
