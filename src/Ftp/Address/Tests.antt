-- ===== src/Ftp/Address/Tests.antt =====
-- Tests of the address in the reply to PASV, and of its numbers.
use ps5_ezremote_server.Prelude.{◌∷◌, [], ◌++◌, ◌≡◌, refl, some}
use ps5_ezremote_server.Outcome.{returns, undefined}
use ps5_ezremote_server.Words.{codes}
use ps5_ezremote_server.Ftp.Address.{behind_parenthesis, scan_fields}

behind_parenthesis_test :
    behind_parenthesis (codes "227 (1,2)" ++ (0 ∷ [])) ≡ some (codes "1,2)" ++ (0 ∷ []))
unfolding behind_parenthesis
behind_parenthesis_test = refl

scan_fields_test :
    scan_fields 6 (codes "10, 0,0,255,4,1).") ≡ returns (10 ∷ 0 ∷ 0 ∷ 255 ∷ 4 ∷ 1 ∷ [])
unfolding scan_fields
scan_fields_test = refl

-- A number that is missing is read all the same.
scan_fields_test_short : scan_fields 6 (codes "10,0,0,255,4)") ≡ undefined
unfolding scan_fields
scan_fields_test_short = refl
