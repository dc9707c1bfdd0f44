-- ===== src/Dashboard/Geomap.antt =====
-- The string `geomap_expr` of generate_dashboard.py, which populate_map.py writes. The pieces stand
-- one to a line, joined by " or ".
use nex_pulse.Base.{String, List, [], ◌∷◌, map}
use nex_pulse.Text.{Text, codes}
use nex_pulse.PopulateMap.{join}

unfoldable pub geomap_pieces : List String
geomap_pieces =
    "label_replace(label_replace(label_replace(vector(150), \"city\", \"New York\", \"\", \"\"), \"lat\", \"40.71\", \"\", \"\"), \"lon\", \"-74.0\", \"\", \"\")"
    ∷ "label_replace(label_replace(label_replace(vector(120), \"city\", \"Los Angeles\", \"\", \"\"), \"lat\", \"34.05\", \"\", \"\"), \"lon\", \"-118.24\", \"\", \"\")"
    ∷ "label_replace(label_replace(label_replace(vector(140), \"city\", \"San Francisco\", \"\", \"\"), \"lat\", \"37.77\", \"\", \"\"), \"lon\", \"-122.41\", \"\", \"\")"
    ∷ "label_replace(label_replace(label_replace(vector(90), \"city\", \"Chicago\", \"\", \"\"), \"lat\", \"41.87\", \"\", \"\"), \"lon\", \"-87.62\", \"\", \"\")"
    ∷ "label_replace(label_replace(label_replace(vector(85), \"city\", \"Toronto\", \"\", \"\"), \"lat\", \"43.65\", \"\", \"\"), \"lon\", \"-79.38\", \"\", \"\")"
    ∷ "label_replace(label_replace(label_replace(vector(60), \"city\", \"Vancouver\", \"\", \"\"), \"lat\", \"49.28\", \"\", \"\"), \"lon\", \"-123.12\", \"\", \"\")"
    ∷ "label_replace(label_replace(label_replace(vector(110), \"city\", \"Mexico City\", \"\", \"\"), \"lat\", \"19.43\", \"\", \"\"), \"lon\", \"-99.13\", \"\", \"\")"
    ∷ "label_replace(label_replace(label_replace(vector(75), \"city\", \"Miami\", \"\", \"\"), \"lat\", \"25.76\", \"\", \"\"), \"lon\", \"-80.19\", \"\", \"\")"
    ∷ "label_replace(label_replace(label_replace(vector(80), \"city\", \"Dallas\", \"\", \"\"), \"lat\", \"32.77\", \"\", \"\"), \"lon\", \"-96.79\", \"\", \"\")"
    ∷ "label_replace(label_replace(label_replace(vector(95), \"city\", \"Seattle\", \"\", \"\"), \"lat\", \"47.6\", \"\", \"\"), \"lon\", \"-122.33\", \"\", \"\")"
    ∷ "label_replace(label_replace(label_replace(vector(160), \"city\", \"London\", \"\", \"\"), \"lat\", \"51.5\", \"\", \"\"), \"lon\", \"-0.12\", \"\", \"\")"
    ∷ "label_replace(label_replace(label_replace(vector(130), \"city\", \"Paris\", \"\", \"\"), \"lat\", \"48.85\", \"\", \"\"), \"lon\", \"2.35\", \"\", \"\")"
    ∷ "label_replace(label_replace(label_replace(vector(110), \"city\", \"Berlin\", \"\", \"\"), \"lat\", \"52.52\", \"\", \"\"), \"lon\", \"13.4\", \"\", \"\")"
    ∷ "label_replace(label_replace(label_replace(vector(90), \"city\", \"Madrid\", \"\", \"\"), \"lat\", \"40.41\", \"\", \"\"), \"lon\", \"-3.7\", \"\", \"\")"
    ∷ "label_replace(label_replace(label_replace(vector(80), \"city\", \"Rome\", \"\", \"\"), \"lat\", \"41.9\", \"\", \"\"), \"lon\", \"12.49\", \"\", \"\")"
    ∷ "label_replace(label_replace(label_replace(vector(140), \"city\", \"Amsterdam\", \"\", \"\"), \"lat\", \"52.36\", \"\", \"\"), \"lon\", \"4.9\", \"\", \"\")"
    ∷ "label_replace(label_replace(label_replace(vector(180), \"city\", \"Frankfurt\", \"\", \"\"), \"lat\", \"50.11\", \"\", \"\"), \"lon\", \"8.68\", \"\", \"\")"
    ∷ "label_replace(label_replace(label_replace(vector(60), \"city\", \"Stockholm\", \"\", \"\"), \"lat\", \"59.32\", \"\", \"\"), \"lon\", \"18.06\", \"\", \"\")"
    ∷ "label_replace(label_replace(label_replace(vector(70), \"city\", \"Moscow\", \"\", \"\"), \"lat\", \"55.75\", \"\", \"\"), \"lon\", \"37.61\", \"\", \"\")"
    ∷ "label_replace(label_replace(label_replace(vector(85), \"city\", \"Dublin\", \"\", \"\"), \"lat\", \"53.34\", \"\", \"\"), \"lon\", \"-6.26\", \"\", \"\")"
    ∷ "label_replace(label_replace(label_replace(vector(170), \"city\", \"Tokyo\", \"\", \"\"), \"lat\", \"35.68\", \"\", \"\"), \"lon\", \"139.69\", \"\", \"\")"
    ∷ "label_replace(label_replace(label_replace(vector(130), \"city\", \"Seoul\", \"\", \"\"), \"lat\", \"37.56\", \"\", \"\"), \"lon\", \"126.97\", \"\", \"\")"
    ∷ "label_replace(label_replace(label_replace(vector(150), \"city\", \"Beijing\", \"\", \"\"), \"lat\", \"39.9\", \"\", \"\"), \"lon\", \"116.4\", \"\", \"\")"
    ∷ "label_replace(label_replace(label_replace(vector(160), \"city\", \"Shanghai\", \"\", \"\"), \"lat\", \"31.23\", \"\", \"\"), \"lon\", \"121.47\", \"\", \"\")"
    ∷ "label_replace(label_replace(label_replace(vector(140), \"city\", \"Hong Kong\", \"\", \"\"), \"lat\", \"22.31\", \"\", \"\"), \"lon\", \"114.16\", \"\", \"\")"
    ∷ "label_replace(label_replace(label_replace(vector(120), \"city\", \"Mumbai\", \"\", \"\"), \"lat\", \"19.07\", \"\", \"\"), \"lon\", \"72.87\", \"\", \"\")"
    ∷ "label_replace(label_replace(label_replace(vector(110), \"city\", \"Delhi\", \"\", \"\"), \"lat\", \"28.7\", \"\", \"\"), \"lon\", \"77.1\", \"\", \"\")"
    ∷ "label_replace(label_replace(label_replace(vector(135), \"city\", \"Bangalore\", \"\", \"\"), \"lat\", \"12.97\", \"\", \"\"), \"lon\", \"77.59\", \"\", \"\")"
    ∷ "label_replace(label_replace(label_replace(vector(190), \"city\", \"Singapore\", \"\", \"\"), \"lat\", \"1.35\", \"\", \"\"), \"lon\", \"103.81\", \"\", \"\")"
    ∷ "label_replace(label_replace(label_replace(vector(90), \"city\", \"Bangkok\", \"\", \"\"), \"lat\", \"13.75\", \"\", \"\"), \"lon\", \"100.5\", \"\", \"\")"
    ∷ "label_replace(label_replace(label_replace(vector(100), \"city\", \"Jakarta\", \"\", \"\"), \"lat\", \"-6.2\", \"\", \"\"), \"lon\", \"106.81\", \"\", \"\")"
    ∷ "label_replace(label_replace(label_replace(vector(115), \"city\", \"Dubai\", \"\", \"\"), \"lat\", \"25.2\", \"\", \"\"), \"lon\", \"55.27\", \"\", \"\")"
    ∷ "label_replace(label_replace(label_replace(vector(130), \"city\", \"Sao Paulo\", \"\", \"\"), \"lat\", \"-23.55\", \"\", \"\"), \"lon\", \"-46.63\", \"\", \"\")"
    ∷ "label_replace(label_replace(label_replace(vector(80), \"city\", \"Buenos Aires\", \"\", \"\"), \"lat\", \"-34.6\", \"\", \"\"), \"lon\", \"-58.38\", \"\", \"\")"
    ∷ "label_replace(label_replace(label_replace(vector(70), \"city\", \"Bogota\", \"\", \"\"), \"lat\", \"4.71\", \"\", \"\"), \"lon\", \"-74.07\", \"\", \"\")"
    ∷ "label_replace(label_replace(label_replace(vector(65), \"city\", \"Lima\", \"\", \"\"), \"lat\", \"-12.04\", \"\", \"\"), \"lon\", \"-77.02\", \"\", \"\")"
    ∷ "label_replace(label_replace(label_replace(vector(75), \"city\", \"Santiago\", \"\", \"\"), \"lat\", \"-33.44\", \"\", \"\"), \"lon\", \"-70.66\", \"\", \"\")"
    ∷ "label_replace(label_replace(label_replace(vector(95), \"city\", \"Lagos\", \"\", \"\"), \"lat\", \"6.52\", \"\", \"\"), \"lon\", \"3.37\", \"\", \"\")"
    ∷ "label_replace(label_replace(label_replace(vector(85), \"city\", \"Cairo\", \"\", \"\"), \"lat\", \"30.04\", \"\", \"\"), \"lon\", \"31.23\", \"\", \"\")"
    ∷ "label_replace(label_replace(label_replace(vector(90), \"city\", \"Johannesburg\", \"\", \"\"), \"lat\", \"-26.2\", \"\", \"\"), \"lon\", \"28.04\", \"\", \"\")"
    ∷ "label_replace(label_replace(label_replace(vector(60), \"city\", \"Nairobi\", \"\", \"\"), \"lat\", \"-1.29\", \"\", \"\"), \"lon\", \"36.82\", \"\", \"\")"
    ∷ "label_replace(label_replace(label_replace(vector(75), \"city\", \"Cape Town\", \"\", \"\"), \"lat\", \"-33.92\", \"\", \"\"), \"lon\", \"18.42\", \"\", \"\")"
    ∷ "label_replace(label_replace(label_replace(vector(110), \"city\", \"Sydney\", \"\", \"\"), \"lat\", \"-33.86\", \"\", \"\"), \"lon\", \"151.2\", \"\", \"\")"
    ∷ "label_replace(label_replace(label_replace(vector(95), \"city\", \"Melbourne\", \"\", \"\"), \"lat\", \"-37.81\", \"\", \"\"), \"lon\", \"144.96\", \"\", \"\")"
    ∷ "label_replace(label_replace(label_replace(vector(60), \"city\", \"Auckland\", \"\", \"\"), \"lat\", \"-36.84\", \"\", \"\"), \"lon\", \"174.76\", \"\", \"\")"
    ∷ "label_replace(label_replace(label_replace(vector(50), \"city\", \"Brisbane\", \"\", \"\"), \"lat\", \"-27.46\", \"\", \"\"), \"lon\", \"153.02\", \"\", \"\")"
    ∷ []

unfoldable pub geomap_expr : Text
unfolding geomap_pieces join
geomap_expr = join (codes " or ") (map codes geomap_pieces)
