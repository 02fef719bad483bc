-- ===== src/Logging/Tests.antt =====
-- The masking at concrete records, with letters as they are for `str.lower` and texts for `str`.
use ollama_proxy.Prelude.{◌≡◌, refl, String, some}
use ollama_proxy.Python.{Json, Fields, str, array, dict, nil, cons, end, field}
use ollama_proxy.Logging.{preview, mask_fields, mask_dict, mask_record}

abbrev text_of : Json → String
text_of (str s) = s
text_of _ = ""

abbrev as_is : String → String
as_is s = s

abbrev secret_field : Fields
secret_field = field "api_key" (str "sk-0123456789") (field "path" (str "/v1/models") end)

abbrev masked_field : Fields
masked_field = field "api_key" (str "sk-01234…") (field "path" (str "/v1/models") end)

-- An object at the top, in a list and below two names is masked; below three it is not.
abbrev around : Fields → Fields → Fields
around inner deep =
    field "a"
      (dict (
        field "b" (array (cons (dict inner) nil))
          (field "c" (dict (field "d" (dict deep) end)) end)))
      end

masked_to_depth :
    mask_dict text_of as_is 0 (around secret_field secret_field) ≡ around masked_field secret_field
unfolding mask_dict mask_fields preview
masked_to_depth = refl

record_masked :
    mask_record text_of as_is as_is
      (record { extra = some (dict (field "secret" (str "pw") end)); message = some "m" })
    ≡ record { extra = some (dict (field "secret" (str "pw…") end)); message = some "m" }
unfolding mask_record mask_dict mask_fields preview
record_masked = refl
