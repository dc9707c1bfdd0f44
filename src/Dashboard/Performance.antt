-- ===== src/Dashboard/Performance.antt =====
-- The table of pages of generate_dashboard.py, section 7.
use nex_pulse.Base.{◌+◌, true, false, [], ◌∷◌, length}
use nex_pulse.Text.{Text, codes}
use nex_pulse.Json.{Json, null, bool, int, float, str, quoted, arr, dict}
use nex_pulse.Dashboard.Board.{Board}

unfoldable pub ttfb : Text
ttfb =
    codes
      "label_replace(vector(1498), \"page\", \"app_checkout_success\", \"\", \"\") or label_replace(vector(3644), \"page\", \"cart\", \"\", \"\") or label_replace(vector(828), \"page\", \"home\", \"\", \"\") or label_replace(vector(2781), \"page\", \"product_detail\", \"\", \"\")"

unfoldable pub fcp : Text
fcp =
    codes
      "label_replace(vector(5.79), \"page\", \"app_checkout_success\", \"\", \"\") or label_replace(vector(8.36), \"page\", \"cart\", \"\", \"\") or label_replace(vector(7.14), \"page\", \"home\", \"\", \"\") or label_replace(vector(7.88), \"page\", \"product_detail\", \"\", \"\")"

unfoldable pub cls : Text
cls =
    codes
      "label_replace(vector(0.00), \"page\", \"app_checkout_success\", \"\", \"\") or label_replace(vector(0.00), \"page\", \"cart\", \"\", \"\") or label_replace(vector(0.00), \"page\", \"home\", \"\", \"\") or label_replace(vector(0.05), \"page\", \"product_detail\", \"\", \"\")"

unfoldable pub fid : Text
fid =
    codes
      "label_replace(vector(0), \"page\", \"app_checkout_success\", \"\", \"\") or label_replace(vector(52), \"page\", \"cart\", \"\", \"\") or label_replace(vector(317), \"page\", \"home\", \"\", \"\") or label_replace(vector(187), \"page\", \"product_detail\", \"\", \"\")"

-- "Page Performance (Web Vitals)"
unfoldable pub page_performance : Board → Json
page_performance b = dict (
    ("type", quoted "table")
    ∷ ("title", quoted "Page Performance (Web Vitals)")
    ∷ ("gridPos", dict (("h", int 10) ∷ ("w", int 24) ∷ ("x", int 0) ∷ ("y", int b.y_pos) ∷ []))
    ∷ ("id", int (length b.panels + 1))
    ∷ (
      "datasource",
      dict (("type", quoted "prometheus") ∷ ("uid", quoted "prometheus-nexpulse") ∷ []),
    )
    ∷ (
      "targets",
      arr (
          (dict (
            ("expr", str ttfb)
            ∷ ("format", quoted "table")
            ∷ ("instant", bool true)
            ∷ ("refId", quoted "ttfb")
            ∷ []))
          ∷ (dict (
              ("expr", str fcp)
              ∷ ("format", quoted "table")
              ∷ ("instant", bool true)
              ∷ ("refId", quoted "fcp")
              ∷ []))
          ∷ (dict (
              ("expr", str cls)
              ∷ ("format", quoted "table")
              ∷ ("instant", bool true)
              ∷ ("refId", quoted "cls")
              ∷ []))
          ∷ (dict (
              ("expr", str fid)
              ∷ ("format", quoted "table")
              ∷ ("instant", bool true)
              ∷ ("refId", quoted "fid")
              ∷ []))
          ∷ []),
    )
    ∷ (
      "transformations",
      arr (
          (dict (
            ("id", quoted "seriesToColumns")
            ∷ ("options", dict (("byField", quoted "page") ∷ []))
            ∷ []))
          ∷ (dict (
              ("id", quoted "organize")
              ∷ (
                "options",
                dict (
                    ("excludeByName", dict (("Time", bool true) ∷ []))
                    ∷ (
                      "renameByName",
                      dict (
                          ("page", quoted "Page ID")
                          ∷ ("Value #ttfb", quoted "TTFB")
                          ∷ ("Value #fcp", quoted "FCP")
                          ∷ ("Value #cls", quoted "CLS")
                          ∷ ("Value #fid", quoted "FID")
                          ∷ []),
                    )
                    ∷ []),
              )
              ∷ []))
          ∷ []),
    )
    ∷ (
      "options",
      dict (
          ("showHeader", bool true)
          ∷ (
            "sortBy",
            arr ((dict (("displayName", quoted "Page ID") ∷ ("desc", bool false) ∷ [])) ∷ []),
          )
          ∷ []),
    )
    ∷ (
      "fieldConfig",
      dict (
          (
            "defaults",
            dict (
                ("color", dict (("mode", quoted "thresholds") ∷ []))
                ∷ (
                  "custom",
                  dict (("align", quoted "auto") ∷ ("displayMode", quoted "color-text") ∷ []),
                )
                ∷ []),
          )
          ∷ (
            "overrides",
            arr (
                (dict (
                  ("matcher", dict (("id", quoted "byName") ∷ ("options", quoted "TTFB") ∷ []))
                  ∷ (
                    "properties",
                    arr (
                        (dict (("id", quoted "unit") ∷ ("value", quoted "ms") ∷ []))
                        ∷ (dict (
                            ("id", quoted "thresholds")
                            ∷ (
                              "value",
                              dict (
                                  ("mode", quoted "absolute")
                                  ∷ (
                                    "steps",
                                    arr (
                                        (dict (("color", quoted "green") ∷ ("value", null) ∷ []))
                                        ∷ (dict
                                            (("color", quoted "orange") ∷ ("value", int 800) ∷ []))
                                        ∷ (dict
                                            (("color", quoted "red") ∷ ("value", int 2000) ∷ []))
                                        ∷ []),
                                  )
                                  ∷ []),
                            )
                            ∷ []))
                        ∷ []),
                  )
                  ∷ []))
                ∷ (dict (
                    ("matcher", dict (("id", quoted "byName") ∷ ("options", quoted "FCP") ∷ []))
                    ∷ (
                      "properties",
                      arr (
                          (dict (("id", quoted "unit") ∷ ("value", quoted "s") ∷ []))
                          ∷ (dict (
                              ("id", quoted "thresholds")
                              ∷ (
                                "value",
                                dict (
                                    ("mode", quoted "absolute")
                                    ∷ (
                                      "steps",
                                      arr (
                                          (dict (("color", quoted "green") ∷ ("value", null) ∷ []))
                                          ∷ (dict
                                              (("color", quoted "orange") ∷ ("value", int 2) ∷ []))
                                          ∷ (dict (("color", quoted "red") ∷ ("value", int 5) ∷ []))
                                          ∷ []),
                                    )
                                    ∷ []),
                              )
                              ∷ []))
                          ∷ []),
                    )
                    ∷ []))
                ∷ (dict (
                    ("matcher", dict (("id", quoted "byName") ∷ ("options", quoted "CLS") ∷ []))
                    ∷ (
                      "properties",
                      arr (
                          (dict (
                            ("id", quoted "custom.displayMode")
                            ∷ ("value", quoted "lcd-gauge")
                            ∷ []))
                          ∷ (dict (("id", quoted "min") ∷ ("value", int 0) ∷ []))
                          ∷ (dict (("id", quoted "max") ∷ ("value", float 1 1) ∷ []))
                          ∷ (dict (
                              ("id", quoted "thresholds")
                              ∷ (
                                "value",
                                dict (
                                    ("mode", quoted "absolute")
                                    ∷ (
                                      "steps",
                                      arr (
                                          (dict (("color", quoted "green") ∷ ("value", null) ∷ []))
                                          ∷ (dict
                                              (("color", quoted "red") ∷ ("value", float 5 2) ∷ []))
                                          ∷ []),
                                    )
                                    ∷ []),
                              )
                              ∷ []))
                          ∷ []),
                    )
                    ∷ []))
                ∷ (dict (
                    ("matcher", dict (("id", quoted "byName") ∷ ("options", quoted "FID") ∷ []))
                    ∷ (
                      "properties",
                      arr (
                          (dict (("id", quoted "unit") ∷ ("value", quoted "ms") ∷ []))
                          ∷ (dict (
                              ("id", quoted "thresholds")
                              ∷ (
                                "value",
                                dict (
                                    ("mode", quoted "absolute")
                                    ∷ (
                                      "steps",
                                      arr (
                                          (dict (("color", quoted "green") ∷ ("value", null) ∷ []))
                                          ∷ (dict (
                                              ("color", quoted "orange") ∷ ("value", int 100) ∷ []))
                                          ∷ (dict
                                              (("color", quoted "red") ∷ ("value", int 250) ∷ []))
                                          ∷ []),
                                    )
                                    ∷ []),
                              )
                              ∷ []))
                          ∷ []),
                    )
                    ∷ []))
                ∷ []),
          )
          ∷ []),
    )
    ∷ [])
