-- ===== src/Properties/Table.antt =====
-- The constraints of each property
-- (server/controllers/entities/lib/properties/properties_values_constraints.ts), in the order of the file.
use inventaire.Base.{String, true, ◌||◌, not, List, [], ◌∷◌, ◌++◌, nat_beq}
use inventaire.Texts.{is_space_code}
use inventaire.Properties.{
  PropertyValueConstraints, remote_entity, an_image_hash, an_entity_type, any_entity, human_entity,
  entity_of, work_or_serie_entity, any_string, unique_string, any_url, unique_simple_day,
  a_positive_integer, a_positive_integer_string, concurrent_external_id, without_spaces, bnf_id,
  mastodon_address, bluesky_name, is_instagram_name, is_linkedin_name,
}
use inventaire.Properties.Builders.{
  isbn_property, external_id_of, typed_external_id, allowed_property_values,
  external_id_with_formatter, case_insensitive_external_id,
}
use inventaire.Properties.Patterns.{
  seq, alt, star, one, one_of, within, word_code, up_to, between, times, some_of, optional, literal,
  whole, anywhere,
}
use inventaire.Properties.Ids.{
  digit, nonzero, digit_or_x, word_or_dash, word_or_dot, is_lower_or_digit, digits_from_1, integer,
  strictly_positive_integer, signed_integer, uuid_pattern, isni, gnd, library_of_congress, bnf, doi,
  orcid, open_library, bne, isbn_publisher_prefix, mastodon, bluesky, threads, instances_of,
  distribution_formats, forms_of_creative_work,
}

abbrev pub Properties : Type 0
Properties = List (String × PropertyValueConstraints)

abbrev pub local_properties : Properties
local_properties =
    ("invp:P1", remote_entity) ∷ ("invp:P2", an_image_hash) ∷ ("invp:P3", an_entity_type) ∷ []

-- From `instance of` to `ISFDB publication ID`
abbrev pub first_properties : Properties
first_properties =
    ("wdt:P31", allowed_property_values instances_of)
    ∷ ("wdt:P50", record human_entity { has_placeholders = true })
    ∷ ("wdt:P58", human_entity)
    ∷ ("wdt:P98", human_entity)
    ∷ ("wdt:P110", human_entity)
    ∷ ("wdt:P112", human_entity)
    ∷ ("wdt:P123", entity_of ("publisher" ∷ []))
    ∷ ("wdt:P127", entity_of ("human" ∷ "publisher" ∷ []))
    ∷ ("wdt:P135", entity_of ("movement" ∷ []))
    ∷ ("wdt:P136", entity_of ("genre" ∷ []))
    ∷ ("wdt:P144", work_or_serie_entity)
    ∷ ("wdt:P179", entity_of ("serie" ∷ []))
    ∷ ("wdt:P195", entity_of ("collection" ∷ []))
    ∷ ("wdt:P212", isbn_property 13)
    ∷ ("wdt:P213", external_id_with_formatter isni without_spaces)
    ∷ (
      "wdt:P214",
      external_id_of (whole (seq nonzero (seq digit (alt (up_to 7 digit) (between 17 20 digit))))),
    )
    ∷ ("wdt:P227", external_id_of gnd)
    ∷ ("wdt:P243", external_id_of (whole (seq (star (literal "0")) (seq nonzero (star digit)))))
    ∷ ("wdt:P244", external_id_of library_of_congress)
    ∷ ("wdt:P268", external_id_with_formatter bnf bnf_id)
    ∷ ("wdt:P269", external_id_of (whole (seq (times 8 digit) digit_or_x)))
    ∷ (
      "wdt:P349",
      external_id_of
          (whole (seq (optional (alt (literal "a1") (literal "s"))) (between 8 9 digit))),
    )
    ∷ ("wdt:P356", case_insensitive_external_id doi)
    ∷ ("wdt:P407", entity_of ("language" ∷ []))
    ∷ ("wdt:P437", allowed_property_values distribution_formats)
    ∷ ("wdt:P496", external_id_of orcid)
    ∷ ("wdt:P569", unique_simple_day)
    ∷ ("wdt:P570", unique_simple_day)
    ∷ ("wdt:P571", unique_simple_day)
    ∷ ("wdt:P576", unique_simple_day)
    ∷ ("wdt:P577", unique_simple_day)
    ∷ ("wdt:P629", entity_of ("work" ∷ []))
    ∷ ("wdt:P648", typed_external_id open_library)
    ∷ ("wdt:P655", human_entity)
    ∷ ("wdt:P675", external_id_of (whole (times 12 (one word_or_dash))))
    ∷ ("wdt:P742", any_string)
    ∷ ("wdt:P737", human_entity)
    ∷ ("wdt:P749", entity_of ("publisher" ∷ []))
    ∷ ("wdt:P813", unique_simple_day)
    ∷ ("wdt:P840", any_entity)
    ∷ ("wdt:P854", any_url)
    ∷ ("wdt:P856", any_url)
    ∷ ("wdt:P906", external_id_of (whole (seq nonzero (between 4 5 digit))))
    ∷ ("wdt:P921", any_entity)
    ∷ ("wdt:P941", work_or_serie_entity)
    ∷ ("wdt:P950", typed_external_id bne)
    ∷ ("wdt:P957", isbn_property 10)
    ∷ ("wdt:P1025", external_id_of (whole (seq (times 8 digit) digit_or_x)))
    ∷ ("wdt:P1044", external_id_of (whole (seq (times 8 digit) digit_or_x)))
    ∷ ("wdt:P1006", external_id_of (whole (seq (times 8 digit) digit_or_x)))
    ∷ ("wdt:P1085", external_id_of (whole (between 1 8 digit)))
    ∷ ("wdt:P1104", a_positive_integer)
    ∷ ("wdt:P1143", external_id_of (whole (times 9 digit)))
    ∷ (
      "wdt:P1144",
      external_id_of (whole (seq (up_to 3 (one (within b'a' b'z'))) (between 6 10 digit))),
    )
    ∷ ("wdt:P1182", external_id_of strictly_positive_integer)
    ∷ ("wdt:P1233", external_id_of (digits_from_1 5))
    ∷ ("wdt:P1234", external_id_of strictly_positive_integer)
    ∷ ("wdt:P1235", external_id_of (digits_from_1 4))
    ∷ ("wdt:P1239", external_id_of (digits_from_1 4))
    ∷ ("wdt:P1274", external_id_of (digits_from_1 6))
    ∷ ("wdt:P1292", external_id_of (whole (seq (between 8 9 digit) (optional digit_or_x))))
    ∷ []

abbrev pub other_properties : Properties
other_properties =
    ("wdt:P1412", entity_of ("language" ∷ []))
    ∷ ("wdt:P1433", any_entity)
    ∷ ("wdt:P1476", unique_string)
    ∷ ("wdt:P1545", a_positive_integer_string)
    ∷ ("wdt:P1581", any_url)
    ∷ ("wdt:P1680", unique_string)
    ∷ ("wdt:P1844", external_id_of (whole (times 9 digit)))
    ∷ ("wdt:P1889", any_entity)
    ∷ ("wdt:P1938", external_id_of (digits_from_1 4))
    ∷ ("wdt:P1960", external_id_of (whole (times 12 (one word_or_dash))))
    ∷ ("wdt:P1982", external_id_of (digits_from_1 5))
    ∷ ("wdt:P1983", external_id_of (digits_from_1 4))
    ∷ ("wdt:P1984", external_id_of strictly_positive_integer)
    ∷ ("wdt:P2002", external_id_of (whole (between 1 15 (one word_code))))
    ∷ ("wdt:P2003", record concurrent_external_id { validate = is_instagram_name })
    ∷ ("wdt:P2013", external_id_of (whole (alt (some_of digit) (some_of (one word_or_dot)))))
    ∷ (
      "wdt:P2397",
      external_id_of
          (whole (seq (literal "UC") (seq (times 21 (one word_or_dash)) (one (one_of "AQgw"))))),
    )
    ∷ ("wdt:P2607", external_id_of uuid_pattern)
    ∷ ("wdt:P2635", a_positive_integer)
    ∷ ("wdt:P2675", work_or_serie_entity)
    ∷ ("wdt:P2679", human_entity)
    ∷ ("wdt:P2680", human_entity)
    ∷ ("wdt:P2963", external_id_of strictly_positive_integer)
    ∷ ("wdt:P2969", external_id_of strictly_positive_integer)
    ∷ ("wdt:P3035", external_id_of isbn_publisher_prefix)
    ∷ (
      "wdt:P3155",
      external_id_of (whole (some_of (one (λ c. is_lower_or_digit c || one_of "/.-" c)))),
    )
    ∷ ("wdt:P3184", external_id_of (whole (seq (literal "cnb") (times 9 digit))))
    ∷ ("wdt:P3630", external_id_of integer)
    ∷ ("wdt:P3631", external_id_of integer)
    ∷ ("wdt:P4033", external_id_with_formatter mastodon mastodon_address)
    ∷ ("wdt:P4084", external_id_of integer)
    ∷ ("wdt:P4087", external_id_of integer)
    ∷ ("wdt:P4285", external_id_of integer)
    ∷ ("wdt:P4369", external_id_of (anywhere (seq nonzero (up_to 5 digit))))
    ∷ ("wdt:P5361", external_id_of (whole (between 2 80 (one (λ c. not (one_of " ?.=" c))))))
    ∷ ("wdt:P5491", external_id_of strictly_positive_integer)
    ∷ ("wdt:P5331", external_id_of strictly_positive_integer)
    ∷ ("wdt:P5199", external_id_of (whole (times 9 digit)))
    ∷ ("wdt:P5570", external_id_of signed_integer)
    ∷ ("wdt:P5571", external_id_of strictly_positive_integer)
    ∷ ("wdt:P5792", external_id_of strictly_positive_integer)
    ∷ ("wdt:P6901", external_id_of signed_integer)
    ∷ ("wdt:P6338", human_entity)
    ∷ ("wdt:P6634", record concurrent_external_id { validate = is_linkedin_name })
    ∷ ("wdt:P6947", external_id_of strictly_positive_integer)
    ∷ (
      "wdt:P7400",
      external_id_of (whole (some_of (one (λ c. not (is_space_code c || nat_beq c b'/'))))),
    )
    ∷ ("wdt:P7823", external_id_of uuid_pattern)
    ∷ ("wdt:P7937", allowed_property_values forms_of_creative_work)
    ∷ ("wdt:P8513", external_id_of (digits_from_1 7))
    ∷ ("wdt:P8063", external_id_of uuid_pattern)
    ∷ ("wdt:P8383", external_id_of strictly_positive_integer)
    ∷ ("wdt:P8619", external_id_of strictly_positive_integer)
    ∷ ("wdt:P9191", human_entity)
    ∷ ("wdt:P10836", human_entity)
    ∷ ("wdt:P10837", human_entity)
    ∷ ("wdt:P11892", external_id_of threads)
    ∷ ("wdt:P12048", external_id_of uuid_pattern)
    ∷ ("wdt:P12319", external_id_of strictly_positive_integer)
    ∷ ("wdt:P12351", external_id_of uuid_pattern)
    ∷ ("wdt:P12361", external_id_with_formatter bluesky bluesky_name)
    ∷ ("wdt:P12852", external_id_of signed_integer)
    ∷ ("wdt:P13004", external_id_of signed_integer)
    ∷ ("wdt:P13137", external_id_of strictly_positive_integer)
    ∷ []

unfoldable pub properties_values_constraints : Properties
properties_values_constraints = local_properties ++ (first_properties ++ other_properties)
