-- ===== src/Http/Status.antt =====
-- The enumerations of packages/http/src: `HttpStatus` of http.interface.ts, and `ContentType` of
-- +internal/contentType.util.ts.
use marble_js.Base.{ℕ, ◌≡◌, refl, Option, some, List, [], ◌∷◌, Text, codes, eqb, find}

pub data HttpStatus : Type 0 where
  continue switching_protocols ok created accepted : HttpStatus
  nonauthoritative_information no_content reset_content partial_content multiple_choices :
      HttpStatus
  moved_permanently found see_other not_modified temporary_redirect : HttpStatus
  permanent_redirect bad_request unauthorized forbidden not_found : HttpStatus
  method_not_allowed not_acceptable proxy_authentication_required request_timeout conflict :
      HttpStatus
  gone length_required precondition_failed payload_too_large uri_too_long : HttpStatus
  unsupported_media_type range_not_satisfiable expectation_failed im_a_teapot unprocessable_entity :
      HttpStatus
  failed_dependency too_early upgrade_required precondition_required too_many_requests : HttpStatus
  request_header_fields_too_large unavailable_for_legal_reasons internal_server_error
        not_implemented bad_gateway :
      HttpStatus
  service_unavailable gateway_timeout http_version_not_supported network_authentication_required :
      HttpStatus

abbrev pub status_code : HttpStatus → ℕ
status_code continue = 100
status_code switching_protocols = 101
status_code ok = 200
status_code created = 201
status_code accepted = 202
status_code nonauthoritative_information = 203
status_code no_content = 204
status_code reset_content = 205
status_code partial_content = 206
status_code multiple_choices = 300
status_code moved_permanently = 301
status_code found = 302
status_code see_other = 303
status_code not_modified = 304
status_code temporary_redirect = 307
status_code permanent_redirect = 308
status_code bad_request = 400
status_code unauthorized = 401
status_code forbidden = 403
status_code not_found = 404
status_code method_not_allowed = 405
status_code not_acceptable = 406
status_code proxy_authentication_required = 407
status_code request_timeout = 408
status_code conflict = 409
status_code gone = 410
status_code length_required = 411
status_code precondition_failed = 412
status_code payload_too_large = 413
status_code uri_too_long = 414
status_code unsupported_media_type = 415
status_code range_not_satisfiable = 416
status_code expectation_failed = 417
status_code im_a_teapot = 418
status_code unprocessable_entity = 422
status_code failed_dependency = 424
status_code too_early = 425
status_code upgrade_required = 426
status_code precondition_required = 428
status_code too_many_requests = 429
status_code request_header_fields_too_large = 431
status_code unavailable_for_legal_reasons = 451
status_code internal_server_error = 500
status_code not_implemented = 501
status_code bad_gateway = 502
status_code service_unavailable = 503
status_code gateway_timeout = 504
status_code http_version_not_supported = 505
status_code network_authentication_required = 511

abbrev all_statuses : List HttpStatus
all_statuses =
    continue ∷ switching_protocols ∷ ok ∷ created ∷ accepted ∷ nonauthoritative_information
    ∷ no_content ∷ reset_content ∷ partial_content ∷ multiple_choices ∷ moved_permanently ∷ found
    ∷ see_other ∷ not_modified ∷ temporary_redirect ∷ permanent_redirect ∷ bad_request
    ∷ unauthorized ∷ forbidden ∷ not_found ∷ method_not_allowed ∷ not_acceptable
    ∷ proxy_authentication_required ∷ request_timeout ∷ conflict ∷ gone ∷ length_required
    ∷ precondition_failed ∷ payload_too_large ∷ uri_too_long ∷ unsupported_media_type
    ∷ range_not_satisfiable ∷ expectation_failed ∷ im_a_teapot ∷ unprocessable_entity
    ∷ failed_dependency ∷ too_early ∷ upgrade_required ∷ precondition_required ∷ too_many_requests
    ∷ request_header_fields_too_large ∷ unavailable_for_legal_reasons ∷ internal_server_error
    ∷ not_implemented ∷ bad_gateway ∷ service_unavailable ∷ gateway_timeout
    ∷ http_version_not_supported ∷ network_authentication_required ∷ []

-- `HttpStatus[code]`
unfoldable status_of : ℕ → Option HttpStatus
status_of n = find (λ s. eqb (status_code s) n) all_statuses

-- Each status is found again by its code: no two have one code.
status_of-status_code : (s : HttpStatus) → status_of (status_code s) ≡ some s
unfolding status_of
status_of-status_code continue = refl
status_of-status_code switching_protocols = refl
status_of-status_code ok = refl
status_of-status_code created = refl
status_of-status_code accepted = refl
status_of-status_code nonauthoritative_information = refl
status_of-status_code no_content = refl
status_of-status_code reset_content = refl
status_of-status_code partial_content = refl
status_of-status_code multiple_choices = refl
status_of-status_code moved_permanently = refl
status_of-status_code found = refl
status_of-status_code see_other = refl
status_of-status_code not_modified = refl
status_of-status_code temporary_redirect = refl
status_of-status_code permanent_redirect = refl
status_of-status_code bad_request = refl
status_of-status_code unauthorized = refl
status_of-status_code forbidden = refl
status_of-status_code not_found = refl
status_of-status_code method_not_allowed = refl
status_of-status_code not_acceptable = refl
status_of-status_code proxy_authentication_required = refl
status_of-status_code request_timeout = refl
status_of-status_code conflict = refl
status_of-status_code gone = refl
status_of-status_code length_required = refl
status_of-status_code precondition_failed = refl
status_of-status_code payload_too_large = refl
status_of-status_code uri_too_long = refl
status_of-status_code unsupported_media_type = refl
status_of-status_code range_not_satisfiable = refl
status_of-status_code expectation_failed = refl
status_of-status_code im_a_teapot = refl
status_of-status_code unprocessable_entity = refl
status_of-status_code failed_dependency = refl
status_of-status_code too_early = refl
status_of-status_code upgrade_required = refl
status_of-status_code precondition_required = refl
status_of-status_code too_many_requests = refl
status_of-status_code request_header_fields_too_large = refl
status_of-status_code unavailable_for_legal_reasons = refl
status_of-status_code internal_server_error = refl
status_of-status_code not_implemented = refl
status_of-status_code bad_gateway = refl
status_of-status_code service_unavailable = refl
status_of-status_code gateway_timeout = refl
status_of-status_code http_version_not_supported = refl
status_of-status_code network_authentication_required = refl

pub data ContentType : Type 0 where
  application application_rtf application_zip application_x_rar : ContentType
  application_x_tar application_x_tz_compressed application_x_www_form_urlencoded application_pdf :
      ContentType
  application_json application_javascript application_ecmascript application_xml : ContentType
  application_octet_stream application_vnd_api_json text_plain text_html : ContentType
  text_css text_csv image_webp image_jpeg : ContentType
  image_png image_gif image_tiff image_svg_xml : ContentType
  audio_mpeg audio_ogg audio video_webm : ContentType
  video_mp4 font_ttf font_woff font_woff2 : ContentType
  multipart_form_data : ContentType

abbrev pub content_type_text : ContentType → Text
content_type_text application = codes "application/*"
content_type_text application_rtf = codes "application/rtf"
content_type_text application_zip = codes "application/zip"
content_type_text application_x_rar = codes "application/x-rar-compressed"
content_type_text application_x_tar = codes "application/x-tar"
content_type_text application_x_tz_compressed = codes "application/x-7z-compressed"
content_type_text application_x_www_form_urlencoded = codes "application/x-www-form-urlencoded"
content_type_text application_pdf = codes "application/pdf"
content_type_text application_json = codes "application/json"
content_type_text application_javascript = codes "application/javascript"
content_type_text application_ecmascript = codes "application/ecmascript"
content_type_text application_xml = codes "application/xml"
content_type_text application_octet_stream = codes "application/octet-stream"
content_type_text application_vnd_api_json = codes "application/vnd.api+json"
content_type_text text_plain = codes "text/plain"
content_type_text text_html = codes "text/html"
content_type_text text_css = codes "text/css"
content_type_text text_csv = codes "text/csv"
content_type_text image_webp = codes "image/webp"
content_type_text image_jpeg = codes "image/jpeg"
content_type_text image_png = codes "image/png"
content_type_text image_gif = codes "image/gif"
content_type_text image_tiff = codes "image/tiff"
content_type_text image_svg_xml = codes "image/svg+xml"
content_type_text audio_mpeg = codes "audio/mpeg"
content_type_text audio_ogg = codes "audio/ogg"
content_type_text audio = codes "audio/*"
content_type_text video_webm = codes "video/webm"
content_type_text video_mp4 = codes "video/mp4"
content_type_text font_ttf = codes "font/ttf"
content_type_text font_woff = codes "font/woff"
content_type_text font_woff2 = codes "font/woff2"
content_type_text multipart_form_data = codes "multipart/form-data"
