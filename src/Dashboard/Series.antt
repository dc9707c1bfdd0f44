-- ===== src/Dashboard/Series.antt =====
-- `create_timeseries` of infra/grafana/dashboards/generate_dashboard.py.
use nex_pulse.Base.{
  ℕ, suc, ◌+◌, Bool, not, Option, some, none, List, [], ◌∷◌, ◌++◌, length, if◌then◌else◌,
}
use nex_pulse.Text.{Text}
use nex_pulse.Json.{Json, int, str, quoted, arr, dict}
use nex_pulse.Dashboard.Board.{Board, Target}

-- The override that the loop appends for a target with a color.
unfoldable pub color_override : Text → Text → Json
color_override legend color = dict (
    ("matcher", dict (("id", quoted "byName") ∷ ("options", str legend) ∷ []))
    ∷ (
      "properties",
      arr (
          dict (
            ("id", quoted "color")
            ∷ ("value", dict (("fixedColor", str color) ∷ ("mode", quoted "fixed") ∷ []))
            ∷ [])
          ∷ []),
    )
    ∷ [])

-- `if "color" in t: overrides.append(…)`
unfoldable pub add_override : Text → Option Text → List Json → List Json
add_override legend none overrides = overrides
add_override legend (some color) overrides = overrides ++ color_override legend color ∷ []

-- The loop over the targets.
unfoldable pub collect_overrides : List Json → List Target → List Json
unfolding add_override
collect_overrides overrides [] = overrides
collect_overrides overrides (t ∷ ts) =
    collect_overrides (add_override t.legend t.color overrides) ts

-- `chr(65+i)`
unfoldable pub ref_id : ℕ → Text
ref_id i = (65 + i) ∷ []

-- `enumerate(targets)` from number `i` on, through the comprehension.
unfoldable pub query_targets : ℕ → List Target → List Json
unfolding ref_id
query_targets i [] = []
query_targets i (t ∷ ts) =
    dict (("expr", str t.expr) ∷ ("legendFormat", str t.legend) ∷ ("refId", str (ref_id i)) ∷ [])
    ∷ query_targets (suc i) ts

unfoldable pub create_timeseries :
    Board → Text → List Target → ℕ → ℕ → ℕ → Text → ℕ → Bool → Text → Json
unfolding collect_overrides query_targets
create_timeseries b title targets x w h unit fill stack draw_style =
    let overrides = collect_overrides [] targets in
    dict (
      ("type", quoted "timeseries")
      ∷ ("title", str title)
      ∷ ("gridPos", dict (("h", int h) ∷ ("w", int w) ∷ ("x", int x) ∷ ("y", int b.y_pos) ∷ []))
      ∷ ("id", int (length b.panels + 1))
      ∷ (
        "datasource",
        dict (("type", quoted "prometheus") ∷ ("uid", quoted "prometheus-nexpulse") ∷ []),
      )
      ∷ ("targets", arr (query_targets 0 targets))
      ∷ (
        "options",
        dict (
            ("legend", dict (("displayMode", quoted "list") ∷ ("placement", quoted "bottom") ∷ []))
            ∷ ("tooltip", dict (("mode", quoted "multi") ∷ ("sort", quoted "none") ∷ []))
            ∷ []),
      )
      ∷ (
        "fieldConfig",
        dict (
            (
              "defaults",
              dict (
                  (
                    "custom",
                    dict (
                        ("drawStyle", str draw_style)
                        ∷ ("fillOpacity", int fill)
                        ∷ ("gradientMode", if not stack then quoted "opacity" else quoted "none")
                        ∷ ("lineInterpolation", quoted "linear")
                        ∷ ("lineWidth", int 2)
                        ∷ ("showPoints", quoted "never")
                        ∷ (
                          "stacking",
                          dict (
                              ("mode", if stack then quoted "normal" else quoted "none")
                              ∷ ("group", quoted "A")
                              ∷ []),
                        )
                        ∷ []),
                  )
                  ∷ ("unit", str unit)
                  ∷ []),
            )
            ∷ ("overrides", arr overrides)
            ∷ []),
      )
      ∷ [])
