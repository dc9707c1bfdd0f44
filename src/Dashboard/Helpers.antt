-- ===== src/Dashboard/Helpers.antt =====
-- The functions `create_*` of infra/grafana/dashboards/generate_dashboard.py that return one panel of
-- a fixed form. Each reads the board for its place and its number, and changes nothing.
use nex_pulse.Base.{ℕ, ◌+◌, ◌*◌, Bool, true, false, [], ◌∷◌, length, if◌then◌else◌}
use nex_pulse.Text.{Text}
use nex_pulse.Json.{Json, null, bool, int, float, str, quoted, arr, dict}
use nex_pulse.Dashboard.Board.{Board}

-- `create_stat`
unfoldable pub create_stat : Board → Text → Text → ℕ → ℕ → Text → Text → Text → ℕ → Json
create_stat b title expr x w color unit format h = dict (
    ("type", quoted "stat")
    ∷ ("title", str title)
    ∷ ("gridPos", dict (("h", int h) ∷ ("w", int w) ∷ ("x", int x) ∷ ("y", int b.y_pos) ∷ []))
    ∷ ("id", int (length b.panels + 1))
    ∷ (
      "datasource",
      dict (("type", quoted "prometheus") ∷ ("uid", quoted "prometheus-nexpulse") ∷ []),
    )
    ∷ (
      "targets",
      arr ((dict (("expr", str expr) ∷ ("refId", quoted "A") ∷ ("format", str format) ∷ [])) ∷ []),
    )
    ∷ (
      "options",
      dict (
          ("colorMode", quoted "background")
          ∷ ("graphMode", quoted "area")
          ∷ ("justifyMode", quoted "auto")
          ∷ ("orientation", quoted "auto")
          ∷ ("reduceOptions", dict (("calcs", arr ((quoted "lastNotNull") ∷ [])) ∷ []))
          ∷ ("textMode", quoted "auto")
          ∷ []),
    )
    ∷ (
      "fieldConfig",
      dict (
          (
            "defaults",
            dict (
                ("color", dict (("mode", quoted "fixed") ∷ ("fixedColor", str color) ∷ []))
                ∷ ("unit", str unit)
                ∷ []),
          )
          ∷ []),
    )
    ∷ [])

-- `create_gauge`
unfoldable pub create_gauge : Board → Text → Text → ℕ → ℕ → ℕ → Text → Text → Json
create_gauge b title expr x w h color unit = dict (
    ("type", quoted "gauge")
    ∷ ("title", str title)
    ∷ ("gridPos", dict (("h", int h) ∷ ("w", int w) ∷ ("x", int x) ∷ ("y", int b.y_pos) ∷ []))
    ∷ ("id", int (length b.panels + 1))
    ∷ (
      "datasource",
      dict (("type", quoted "prometheus") ∷ ("uid", quoted "prometheus-nexpulse") ∷ []),
    )
    ∷ ("targets", arr ((dict (("expr", str expr) ∷ ("refId", quoted "A") ∷ [])) ∷ []))
    ∷ (
      "options",
      dict (
          (
            "reduceOptions",
            dict (("calcs", arr ((quoted "lastNotNull") ∷ [])) ∷ ("values", bool false) ∷ []),
          )
          ∷ ("orientation", quoted "auto")
          ∷ ("showThresholdLabels", bool false)
          ∷ ("showThresholdMarkers", bool true)
          ∷ []),
    )
    ∷ (
      "fieldConfig",
      dict (
          (
            "defaults",
            dict (
                ("color", dict (("mode", quoted "thresholds") ∷ []))
                ∷ (
                  "thresholds",
                  dict (
                      ("mode", quoted "absolute")
                      ∷ ("steps", arr ((dict (("color", str color) ∷ ("value", null) ∷ [])) ∷ []))
                      ∷ []),
                )
                ∷ ("unit", str unit)
                ∷ []),
          )
          ∷ []),
    )
    ∷ [])

-- `create_bargauge`
unfoldable pub create_bargauge : Board → Text → Text → ℕ → ℕ → ℕ → Text → Text → Json
create_bargauge b title expr x w h color unit = dict (
    ("type", quoted "bargauge")
    ∷ ("title", str title)
    ∷ ("gridPos", dict (("h", int h) ∷ ("w", int w) ∷ ("x", int x) ∷ ("y", int b.y_pos) ∷ []))
    ∷ ("id", int (length b.panels + 1))
    ∷ (
      "datasource",
      dict (("type", quoted "prometheus") ∷ ("uid", quoted "prometheus-nexpulse") ∷ []),
    )
    ∷ ("targets", arr ((dict (("expr", str expr) ∷ ("refId", quoted "A") ∷ [])) ∷ []))
    ∷ (
      "options",
      dict (
          ("reduceOptions", dict (("calcs", arr ((quoted "lastNotNull") ∷ [])) ∷ []))
          ∷ ("orientation", quoted "horizontal")
          ∷ ("displayMode", quoted "lcd")
          ∷ ("showUnfilled", bool true)
          ∷ []),
    )
    ∷ (
      "fieldConfig",
      dict (
          (
            "defaults",
            dict (
                ("color", dict (("mode", quoted "thresholds") ∷ []))
                ∷ (
                  "thresholds",
                  dict (
                      ("mode", quoted "absolute")
                      ∷ ("steps", arr ((dict (("color", str color) ∷ ("value", null) ∷ [])) ∷ []))
                      ∷ []),
                )
                ∷ ("unit", str unit)
                ∷ []),
          )
          ∷ []),
    )
    ∷ [])

-- The `steps` of a bar box or a speedometer. The products with floats are exact at the values of the
-- program, 100 and 1000.
unfoldable pub threshold_steps : ℕ → Bool → Json
threshold_steps max_val invert_colors =
    if invert_colors
    then arr (
        (dict (("color", quoted "red") ∷ ("value", null) ∷ []))
        ∷ (dict (("color", quoted "orange") ∷ ("value", float (max_val * 1) 1) ∷ []))
        ∷ (dict (("color", quoted "green") ∷ ("value", float (max_val * 3) 1) ∷ []))
        ∷ [])
    else arr (
        (dict (("color", quoted "green") ∷ ("value", null) ∷ []))
        ∷ (dict (("color", quoted "orange") ∷ ("value", float (max_val * 7) 1) ∷ []))
        ∷ (dict (("color", quoted "red") ∷ ("value", float (max_val * 9) 1) ∷ []))
        ∷ [])

-- `create_minimal_stat`
unfoldable pub create_minimal_stat : Board → Text → Text → ℕ → Text → Text → Json
create_minimal_stat b title expr x color unit = dict (
    ("type", quoted "stat")
    ∷ ("title", str title)
    ∷ ("gridPos", dict (("h", int 5) ∷ ("w", int 3) ∷ ("x", int x) ∷ ("y", int b.y_pos) ∷ []))
    ∷ ("id", int (length b.panels + 1))
    ∷ (
      "datasource",
      dict (("type", quoted "prometheus") ∷ ("uid", quoted "prometheus-nexpulse") ∷ []),
    )
    ∷ ("targets", arr ((dict (("expr", str expr) ∷ ("refId", quoted "A") ∷ [])) ∷ []))
    ∷ (
      "options",
      dict (
          ("colorMode", quoted "value")
          ∷ ("graphMode", quoted "none")
          ∷ ("justifyMode", quoted "auto")
          ∷ ("reduceOptions", dict (("calcs", arr ((quoted "lastNotNull") ∷ [])) ∷ []))
          ∷ ("textMode", quoted "auto")
          ∷ []),
    )
    ∷ (
      "fieldConfig",
      dict (
          (
            "defaults",
            dict (
                ("color", dict (("mode", quoted "fixed") ∷ ("fixedColor", str color) ∷ []))
                ∷ ("unit", str unit)
                ∷ []),
          )
          ∷ []),
    )
    ∷ [])

-- `create_bar_box`
unfoldable pub create_bar_box : Board → Text → Text → ℕ → Text → Text → ℕ → Bool → Json
create_bar_box b title expr x color unit max_val invert_colors = dict (
    ("type", quoted "bargauge")
    ∷ ("title", str title)
    ∷ ("gridPos", dict (("h", int 5) ∷ ("w", int 3) ∷ ("x", int x) ∷ ("y", int b.y_pos) ∷ []))
    ∷ ("id", int (length b.panels + 1))
    ∷ (
      "datasource",
      dict (("type", quoted "prometheus") ∷ ("uid", quoted "prometheus-nexpulse") ∷ []),
    )
    ∷ ("targets", arr ((dict (("expr", str expr) ∷ ("refId", quoted "A") ∷ [])) ∷ []))
    ∷ (
      "options",
      dict (
          ("reduceOptions", dict (("calcs", arr ((quoted "lastNotNull") ∷ [])) ∷ []))
          ∷ ("orientation", quoted "horizontal")
          ∷ ("displayMode", quoted "lcd")
          ∷ ("showUnfilled", bool true)
          ∷ []),
    )
    ∷ (
      "fieldConfig",
      dict (
          (
            "defaults",
            dict (
                ("color", dict (("mode", quoted "thresholds") ∷ []))
                ∷ ("max", int max_val)
                ∷ ("min", int 0)
                ∷ (
                  "thresholds",
                  dict (
                      ("mode", quoted "absolute")
                      ∷ ("steps", threshold_steps max_val invert_colors)
                      ∷ []),
                )
                ∷ ("unit", str unit)
                ∷ []),
          )
          ∷ []),
    )
    ∷ [])

-- `create_speedometer`
unfoldable pub create_speedometer : Board → Text → Text → ℕ → Text → Text → ℕ → Bool → Json
create_speedometer b title expr x color unit max_val invert_colors = dict (
    ("type", quoted "gauge")
    ∷ ("title", str title)
    ∷ ("gridPos", dict (("h", int 5) ∷ ("w", int 3) ∷ ("x", int x) ∷ ("y", int b.y_pos) ∷ []))
    ∷ ("id", int (length b.panels + 1))
    ∷ (
      "datasource",
      dict (("type", quoted "prometheus") ∷ ("uid", quoted "prometheus-nexpulse") ∷ []),
    )
    ∷ ("targets", arr ((dict (("expr", str expr) ∷ ("refId", quoted "A") ∷ [])) ∷ []))
    ∷ (
      "options",
      dict (
          (
            "reduceOptions",
            dict (("calcs", arr ((quoted "lastNotNull") ∷ [])) ∷ ("values", bool false) ∷ []),
          )
          ∷ ("orientation", quoted "auto")
          ∷ ("showThresholdLabels", bool false)
          ∷ ("showThresholdMarkers", bool true)
          ∷ []),
    )
    ∷ (
      "fieldConfig",
      dict (
          (
            "defaults",
            dict (
                ("color", dict (("mode", quoted "thresholds") ∷ []))
                ∷ ("max", int max_val)
                ∷ ("min", int 0)
                ∷ (
                  "thresholds",
                  dict (
                      ("mode", quoted "absolute")
                      ∷ ("steps", threshold_steps max_val invert_colors)
                      ∷ []),
                )
                ∷ ("unit", str unit)
                ∷ []),
          )
          ∷ []),
    )
    ∷ [])
