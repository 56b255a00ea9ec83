-- ===== src/FileSchema/ListTypes.antt =====
-- A column whose type is a list, in `conforms_to_schema` of FileSchema.
use airbyte_python_cdk.Prelude.{text_key}
use airbyte_python_cdk.Python.Dict.{Dict}
