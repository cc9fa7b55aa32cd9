-- ===== src/Tests/Journaling.antt =====
-- Journal records written and read back, with values as their own text.
use cycles_client_python.Prelude.{◌≡◌, refl, some, ok}
use cycles_client_python.Json.{Json}
use cycles_client_python.Journal.Record.{JsonText, IsWellFormed, to_json, from_json}
use cycles_client_python.Journal.RoundTrip.{from_json-to_json}
use cycles_client_python.Tests.Fixtures.{entry}

abbrev plain : JsonText Json
plain = record { dumps = λ v. v; loads = λ v. some v; loads-dumps = λ v. refl }

entry-IsWellFormed : IsWellFormed entry
entry-IsWellFormed = record { identified = refl; committable = λ e. refl; recoverable = λ e. refl }

from_json-to_json_example : from_json plain (to_json plain entry) ≡ ok entry
from_json-to_json_example = from_json-to_json plain entry entry-IsWellFormed
