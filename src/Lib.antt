-- ===== src/Lib.antt =====
-- Verification of multiple-protocol-controller, a service that collects points of field devices over
-- Modbus RTU (in TCP), BACnet/IP, OPC UA and MQTT, publishes them, and writes points on command.
--
-- The program's parts, and what models them. A collector (internal/collector) plans which points of a
-- device share a request, sends the request on a connection of internal/conn, checks and decodes the
-- answer, and passes the values on; a command (internal/control) is encoded by a package of
-- internal/protocol, sent, and its acknowledgement is checked by the collector's functions, while the
-- collectors of the same gateway are paused. Values have type interface{} and are converted by
-- pkg/utils. The Judge Source passes collected values to Redis within limits, and logs its failures.
--
--   Common          shared names, lists, texts, machine integers and bitwise laws
--   Values          dynamic values, and the coercions of pkg/utils/utils.go (coerce_int64 for
--                   CoerceInt64, and so on); errors and panics as a result type
--   Modbus.Crc      computeCRC and appendCRC of internal/protocol/modbusRtu/encodeCommand.go, verifyCRC
--                   of internal/collector/modbus.go
--   Modbus.Endian, Modbus.Registers, Modbus.Encode
--                   the write encoder, internal/protocol/modbusRtu/encodeCommand.go
--   Modbus.Decode, Modbus.Ack
--                   request frames, decoding and WaitCommandAck, internal/collector/modbus.go
--   Modbus.Batch    internal/collector/batch.go: batch_loop is the loop of buildBatchQueries, and
--                   can_add, add_param and build are the builder's methods
--   Modbus.Collect  decodeRegisterBatch, decodeDiscreteBatch and the answer's checks in
--                   collectModbusBatch and readParamValueWithConn, internal/collector/modbus.go
--   Bacnet.Value, Bacnet.Frame, Bacnet.Exchange
--                   application values, frames, and the loops of ReadPresentValue and
--                   WritePresentValue over the datagrams that arrive, internal/conn/bacnet_manager.go
--   Gateway         internal/collector/gateway_pause.go, a call for each step
--   Health          Health.Targets is buildGatewayTargets and Health.Probe CheckGateway with what it
--                   calls, internal/conn/gateway_health.go; Health.Status is checkTarget of
--                   internal/collector/gateway_status.go
--   History         internal/collector/history_writer.go: History.Batches has the queue, the batch and the
--                   drain as steps of the goroutine and of its callers, History.Send the attempts of a
--                   batch, History.Line and History.Escape the text of a point
--   Protocol        internal/protocol/protocol.go, the data types of internal/protocol/datatypes, and the
--                   check of the points of all four protocols in their packages under internal/protocol
--   Runtime         internal/config/runtime.go: Runtime.Build has buildDeviceRuntime and
--                   BuildRuntimeConfig, Runtime.Params the device parameters, and Runtime.Modbus,
--                   Runtime.Bacnet, Runtime.Opcua and Runtime.Mqtt the points of each protocol
--   Convert         the value conversions of internal/protocol/bacnet/encodeCommand.go and
--                   internal/protocol/opcua/encodeCommand.go, normalizeCommandValue of
--                   internal/control/control.go and normalizeMqttValue of internal/collector/mqtt.go
--   Control         internal/control/control.go and internal/control/verification.go: Control.Dispatch.Items
--                   has ProcessCommand, Control.Dispatch.Keys the dispatch functions of the four
--                   protocols, Control.Readback and Control.Compare the verification by read-back,
--                   Control.Results the answer, and Control.Payload the MQTT payload with the path of
--                   parseMqttPayload, internal/conn/mqtt_manager.go
--   Judge.FailureLog
--                   internal/collector/judge_source_failure_log.go, a call for each step
--   Judge.Config    normalizedJudgeSourceConfig of internal/collector/judge_source.go and the
--                   constructor's test of internal/collector/judge_source_publisher.go
--   Judge.Queue     enqueue, nextPublication and completePublication of the same file; Judge.Queue.Ready
--                   has the steps of runWorker and of the callers as a relation on states
--
-- State is passed explicitly: the builder of a batch, the failure log and the pause states are records
-- that each operation takes and returns; the history writer and the publisher's workers are step relations.
-- Loops are structural recursion on lists. Fuel stands in three places: verify_control_readback takes one
-- more than the number of the read-back after which the context is done, replace_all the length of its
-- text, and print_ℕ one more than its number, which the theorems or the definitions give. Numbers are
-- natural numbers with the wrap-around of uint16, uint64 and int64 written out; bytes are numbers below
-- 256. A slice out of range is the result `panic`.
--
-- Parameters and assumptions. Floating-point numbers are a record of operations (Values.Floats), and
-- Values.FloatLaws states what the documentation of package math says of bit patterns and Go of
-- conversions in range; Values.Samples has an instance. Texts are ASCII. The devices of
-- Modbus.Collect.Device and Bacnet.Frame.Answer follow the two protocols' standards and are no part of
-- the program. encoding/json, the HTTP client, fmt.Sscanf, fmt.Sprint and math/big are parameters
-- (Protocol.Points.JsonOf, Runtime.Params.JsonValues, Convert.Command.Scans, Convert.Mqtt.JsonTexts,
-- History.Line.Formats, Control.Compare.Comparisons), and Control.Compare.ComparisonLaws states what
-- package big documents of rationals that are integers. The calls of other packages that a command makes
-- are a record of their results (Control.Dispatch.Calls), and what encoding and decoding JSON make of a
-- scalar is an argument of Control.Payload.decoded. A gateway check has the answers of the kernel
-- and of the dial, and what other goroutines do between its sections, in Health.Probe.Round. The
-- iteration order of Go's maps is fixed to the order of first occurrence. The counters of the failure
-- log and of failed dials do not wrap.
--
-- Not modelled: sockets, deadlines, tickers, Redis, HTTP, YAML, the OPC UA and MQTT libraries, log
-- lines, and the texts of error messages. Within the modelled files, the loops that read a serial
-- frame from a connection are left out, and so are the select of a collector that waits for a gateway,
-- the pause of a gateway around a Modbus write, the encoding of Judge events and the publication to
-- Redis. The round of gateway checks and its goroutines, the leases of the connection managers, the
-- workers of the collectors and the writer of results are not modelled.
pub mod Common
pub mod Modbus
pub mod Values
pub mod Judge
pub mod Bacnet
pub mod Gateway
pub mod Health
pub mod History
pub mod Protocol
pub mod Runtime
pub mod Convert
pub mod Control
