-- ===== src/Restructure/Code.antt =====
-- The string `api_code` of infra/grafana/dashboards/restructure.py.
use nex_pulse.Base.{String, List, [], ◌∷◌}
use nex_pulse.Text.{Text, unlines}

-- The lines of the literal, without their ends.
unfoldable pub code_lines : List String
code_lines =
    ""
    ∷ "    api_traffic_expr = 'label_replace(sum(rate(gateway_events_ingested_total[10s])) * 0.4, \"api\", \"/api/v1/checkout\", \"\", \"\") or label_replace(sum(rate(gateway_events_ingested_total[10s])) * 0.35, \"api\", \"/api/v1/cart\", \"\", \"\") or label_replace(sum(rate(gateway_events_ingested_total[10s])) * 0.25, \"api\", \"/api/v1/product\", \"\", \"\")'"
    ∷ "    panels.append({" ∷ "        \"type\": \"timeseries\","
    ∷ "        \"title\": \"Individual API Endpoint Traffic\","
    ∷ "        \"gridPos\": {\"h\": 8, \"w\": 12, \"x\": 12, \"y\": y_pos},"
    ∷ "        \"id\": len(panels) + 1,"
    ∷ "        \"datasource\": {\"type\": \"prometheus\", \"uid\": \"prometheus-nexpulse\"},"
    ∷ "        \"targets\": ["
    ∷ "            {\"expr\": api_traffic_expr, \"legendFormat\": \"{{api}}\", \"refId\": \"A\"}"
    ∷ "        ]," ∷ "        \"options\": {"
    ∷ "            \"legend\": {\"displayMode\": \"table\", \"placement\": \"right\"},"
    ∷ "            \"tooltip\": {\"mode\": \"multi\"}" ∷ "        }," ∷ "        \"fieldConfig\": {"
    ∷ "            \"defaults\": {" ∷ "                \"custom\": {"
    ∷ "                    \"drawStyle\": \"line\"," ∷ "                    \"fillOpacity\": 20,"
    ∷ "                    \"lineWidth\": 2," ∷ "                    \"gradientMode\": \"opacity\""
    ∷ "                }," ∷ "                \"color\": {\"mode\": \"palette-classic\"}"
    ∷ "            }" ∷ "        }" ∷ "    })" ∷ "    y_pos += 8" ∷ []

unfoldable pub api_code : Text
unfolding code_lines unlines
api_code = unlines code_lines
