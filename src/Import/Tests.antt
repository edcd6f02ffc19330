-- ===== src/Import/Tests.antt =====
-- Runs of packages/business-logic/src/import.
use dukaano.Base.{All, List, [], arith, err, false, map, ok, refl, ◌+◌, ◌∷◌, ◌≡◌, ◌≢◌}
use dukaano.Base.Text.{Text, bom, codes, trim}
use dukaano.Import.Csv.{CsvRow, is_blank, next_is, parse_csv, to_csv, unclosed_quote}
use dukaano.Import.Csv.RoundTrip.{Kept, ReadFrom, parse_csv-to_csv}
use dukaano.Import.Csv.Scan.{as_read, newlines_in}

abbrev names : List Text
names = codes "name" ∷ codes "note" ∷ []

abbrev goods : List (List Text)
goods =
    (codes "rice, raw" ∷ codes "5\" bag" ∷ [])
    ∷ ((b'a' ∷ b'\n' ∷ b'b' ∷ []) ∷ [] ∷ [])
    ∷ (codes "salt" ∷ codes "1" ∷ [])
    ∷ []

goods_text :
    to_csv names goods ≡ codes "name,note\r\n\"rice, raw\",\"5\"\" bag\"\r\n\"a\nb\",\r\nsalt,1\r\n"
unfolding to_csv
goods_text = refl

unclosed : parse_csv (codes "a,b\n1,\"2") ≡ err (unclosed_quote 2)
unfolding parse_csv
unclosed = refl

no_bom : next_is bom (to_csv names goods) ≡ false
unfolding to_csv
no_bom = refl

parse_csv-to_csv_example :
    (read : List CsvRow) × ReadFrom (2 + newlines_in names) goods read
    × (parse_csv (to_csv names goods)
        ≡ ok (record { header = map trim (as_read names); rows = read }))
parse_csv-to_csv_example = parse_csv-to_csv names goods no_bom

names-trimmed : All (λ name. trim name ≡ name) names
unfolding trim
names-trimmed = (refl, (refl, tt))

some_names : names ≢ []
some_names e = ground arith

goods-Kept : All Kept goods
unfolding is_blank
goods-Kept =
    (((λ e. ground arith), refl), (((λ e. ground arith), refl), (((λ e. ground arith), refl), tt)))
