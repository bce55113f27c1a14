-- ===== src/Tests/Data.antt =====
-- Headers, arguments and the enumerations of http/mod.rs on small inputs.
use ws_platform.Common.{Text, codes, refl, [], ◌∷◌, IsMap, text_key}
use ws_platform.KeyVal.{key, KeyVal}
use ws_platform.Tests.Shared.{ascii_key}

abbrev headers : KeyVal Text
headers =
    (key (codes "Accept"), codes "a" ∷ codes "b" ∷ []) ∷ (key (codes "Host"), codes "h" ∷ []) ∷ []

headers-IsMap : IsMap headers
headers-IsMap = ((refl, tt), (tt, tt))
