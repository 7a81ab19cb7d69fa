-- ===== src/Http/Toy.antt =====
-- Headers as an association list, for the tests: every value is taken and read.
use pqc_gateway.Common.{refl, [], str_instance, true}
use pqc_gateway.Common.Map.{Map, lookup, insert, remove, lookup-insert, lookup-remove}
use pqc_gateway.Http.{Http}
use pqc_gateway.Common.{Str}

abbrev pub toy_http : Http
toy_http = record {
  Headers = Map Str Str;
  get = λ h n. lookup n h;
  insert = λ h n v. insert n v h;
  remove = λ h n. remove n h;
  json_headers = [];
  is_value = λ s. true;
  is_text = λ s. true;
  get_insert = λ h n m v. lookup-insert n m v h;
  get_remove = λ h n m. lookup-remove n m h;
  visible_value = λ s v. refl;
  visible_text = λ s v. refl;
}
